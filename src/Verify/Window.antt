-- ===== src/Verify/Window.antt =====
-- About internal/verify/format.go: a window over a stream that arrives in pieces.
use vaultd.Base.{
  ℕ, zero, suc, ◌+◌, ◌-◌, ◌≤◌, true, List, [], ◌∷◌, ◌++◌, if◌then◌else◌, ltb, Text, length,
  length-append, take, ◌≡◌, refl, sym, ap, ◌∙◌, arith, Bool-cases, inl, inr, min, subst,
}
use mathlib.Core.List.{append-nil, append_assoc}
use vaultd.Verify.Format.{
  Window, empty_window, drop, last_bytes, write, write_all, head_bytes, tail_bytes, Validator,
  validate,
}

abbrev pub concat : List Text → Text
concat [] = []
concat (p ∷ ps) = p ++ concat ps

-- The window of a whole stream.
abbrev pub window_of : Text → Window
window_of t = record { head = take head_bytes t; tail = last_bytes tail_bytes t; total = length t }

abbrev none_yet : Text
none_yet = []

take-nil : (n : ℕ) → take n none_yet ≡ []
take-nil zero = refl
take-nil (suc n) = refl

drop-nil : (n : ℕ) → drop n none_yet ≡ []
drop-nil zero = refl
drop-nil (suc n) = refl

take-min : (n : ℕ) (p : Text) → take (min (length p) n) p ≡ take n p
take-min zero p = let e : min (length p) 0 ≡ 0 = ground arith in rw e refl
take-min (suc n) [] = take-nil (min 0 (suc n))
take-min (suc n) (x ∷ p) =
    let e : min (suc (length p)) (suc n) ≡ suc (min (length p) n) = ground arith in
    rw e (ap (λ t. x ∷ t) (take-min n p))

-- The head of a window that has seen `s`.
head-write :
    (n : ℕ) (s p : Text)
    → (if ltb (length (take n s)) n
        then take n s ++ take (min (length p) (n - length (take n s))) p
        else take n s)
      ≡ take n (s ++ p)
head-write zero s p = refl
head-write (suc n) [] p =
    let e : ltb 0 (suc n) ≡ true = ground arith in
    let d : suc n - 0 ≡ suc n = omega arith in rw (e, d) (take-min (suc n) p)
head-write (suc n) (x ∷ s) p =
    let ih = head-write n s p in
    let e : ltb (suc (length (take n s))) (suc n) ≡ ltb (length (take n s)) n = ground arith in
    let d : suc n - suc (length (take n s)) ≡ n - length (take n s) = omega arith in
    elim (Bool-cases (ltb (length (take n s)) n)) [
      | inl b ↦
          let f : (if true
                then take n s ++ take (min (length p) (n - length (take n s))) p
                else take n s)
              ≡ take n (s ++ p) =
            subst
              (λ c.
                (if c
                  then take n s ++ take (min (length p) (n - length (take n s))) p
                  else take n s)
                ≡ take n (s ++ p))
              b ih in
          rw (e, b, d) (ap (λ t. x ∷ t) f)
      | inr b ↦
          let f : take n s ≡ take n (s ++ p) =
            subst
              (λ c.
                (if c
                  then take n s ++ take (min (length p) (n - length (take n s))) p
                  else take n s)
                ≡ take n (s ++ p))
              b ih in
          rw (e, b) (ap (λ t. x ∷ t) f)
    ]

drop-append : (n : ℕ) (xs ys : Text) → n ≤ length xs → drop n (xs ++ ys) ≡ drop n xs ++ ys
drop-append zero xs ys h = refl
drop-append (suc n) [] ys h = absurd (omega (arith, h))
drop-append (suc n) (x ∷ xs) ys h = drop-append n xs ys (omega (arith, h))

drop-drop : (m n : ℕ) (xs : Text) → drop m (drop n xs) ≡ drop (n + m) xs
drop-drop m zero xs = let e : 0 + m ≡ m = omega arith in rw e refl
drop-drop m (suc n) [] = drop-nil m ∙ sym (drop-nil (suc n + m))
drop-drop m (suc n) (x ∷ xs) =
    let e : suc n + m ≡ suc (n + m) = omega arith in rw e (drop-drop m n xs)

length-drop : (n : ℕ) (xs : Text) → length (drop n xs) ≡ length xs - n
length-drop zero xs = omega arith
length-drop (suc n) [] = omega arith
length-drop (suc n) (x ∷ xs) = omega (arith, length-drop n xs)

last_bytes-drop : (n : ℕ) (t : Text) → last_bytes n t ≡ drop (length t - n) t
last_bytes-drop n t = elim (Bool-cases (ltb n (length t))) [
  | inl b ↦ rw b refl
  | inr b ↦ let e : length t - n ≡ 0 = ground (arith, b) in rw (b, e) refl
]

tail-write : (n : ℕ) (s p : Text) → last_bytes n (last_bytes n s ++ p) ≡ last_bytes n (s ++ p)
tail-write n s p =
    let k = length s - n in
    let seen = last_bytes-drop n s in
    let joined : drop k s ++ p ≡ drop k (s ++ p) = sym (drop-append k s p (omega arith)) in
    let size : length (drop k (s ++ p)) ≡ length s + length p - k =
      length-drop k (s ++ p) ∙ ap (λ m. m - k) (length-append s p) in
    let total = length-append s p in
    let shift : k + (length (drop k (s ++ p)) - n) ≡ length (s ++ p) - n =
      omega (arith, size, total) in
    ap (λ t. last_bytes n (t ++ p)) seen
    ∙ (ap (last_bytes n) joined
        ∙ (last_bytes-drop n (drop k (s ++ p))
            ∙ (drop-drop (length (drop k (s ++ p)) - n) k (s ++ p)
                ∙ (ap (λ m. drop m (s ++ p)) shift ∙ sym (last_bytes-drop n (s ++ p))))))

write-window : (s p : Text) → write p (window_of s) ≡ window_of (s ++ p)
unfolding write
write-window s p =
    let h = head-write head_bytes s p in
    let t = tail-write tail_bytes s p in
    let l = sym (length-append s p) in λ i. record { head = h i; tail = t i; total = l i }

write_all-window :
    (ps : List Text) (s : Text) → write_all ps (window_of s) ≡ window_of (s ++ concat ps)
unfolding write_all
write_all-window [] s = ap window_of (sym (append-nil s))
write_all-window (p ∷ ps) s =
    ap (write_all ps) (write-window s p)
    ∙ (write_all-window ps (s ++ p) ∙ ap window_of (append_assoc s p (concat ps)))

-- What a validator says of a stream does not depend on how the stream is cut into writes: it is what it
-- says of the first 512 bytes, the last 4096 bytes and the length of the whole.
pub validate-chunks :
    (v : Validator) (ps : List Text)
    → validate v (write_all ps empty_window) ≡ validate v (window_of (concat ps))
validate-chunks v ps = ap (validate v) (write_all-window ps [])
