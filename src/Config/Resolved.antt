-- ===== src/Config/Resolved.antt =====
-- About internal/config/defaults.go: a target whose inheritance is resolved.
use vaultd.Base.{
  String, true, Option, none, some, ◌==◌, ◌=s=◌, ◌≡◌, refl, ap, ◌∙◌, Bool-cases, is_some, inl, inr,
}
use vaultd.Pipeline.Int.{ℤ, pos, negsuc}
use vaultd.Config.Types.{DayRule, Retention, Compression, VerifySpec, Target, Defaults}
use vaultd.Config.Defaults.{
  default_level, text_or, int_or, option_or, on_some, copied, apply_compression, apply_day,
  apply_retention, apply_verify, apply_block, apply_target, builtin_compression, builtin_timeout,
}

text_or-twice : (s d : String) → text_or (text_or s d) d ≡ text_or s d
text_or-twice s d = elim (Bool-cases (s =s= "")) [
  | inl e ↦ elim (Bool-cases (d =s= "")) [ inl f ↦ rw (e, f) refl | inr f ↦ rw (e, f) refl ]
  | inr e ↦ rw (e, e) refl
]

int_or-twice : (n d : ℤ) → int_or (int_or n d) d ≡ int_or n d
int_or-twice (negsuc n) d = refl
int_or-twice (pos n) d = elim (Bool-cases (n == 0)) [
  | inl e ↦ rw e (same d)
  | inr e ↦ rw (e, e) refl
]
  where
    same : (d : ℤ) → int_or d d ≡ d
    same (negsuc m) = refl
    same (pos m) = elim (Bool-cases (m == 0)) [ inl e ↦ rw e refl | inr e ↦ rw e refl ]

option_or-twice :
    {A : Type 0} (f : A → A) (o d : Option A)
    → option_or (on_some f (option_or o d)) d ≡ on_some f (option_or o d)
option_or-twice f none none = refl
option_or-twice f none (some a) = refl
option_or-twice f (some a) d = refl

on_some-twice :
    {A : Type 0} (f : A → A)
    → ((a : A) → f (f a) ≡ f a)
    → (o : Option A) → on_some f (on_some f o) ≡ on_some f o
on_some-twice f h none = refl
on_some-twice f h (some a) = ap some (h a)

option_or-same : {A : Type 0} (o d : Option A) → option_or (option_or o d) d ≡ option_or o d
option_or-same none none = refl
option_or-same none (some a) = refl
option_or-same (some a) d = refl

apply_compression-twice :
    (c : Compression) → apply_compression (apply_compression c) ≡ apply_compression c
apply_compression-twice c =
    let p = text_or-twice c.algo "zstd" in
    let level = int_or c.level (default_level (text_or c.algo "zstd")) in
    let q =
      ap (λ a. int_or level (default_level a)) p
      ∙ int_or-twice c.level (default_level (text_or c.algo "zstd")) in
    λ i. record { algo = p i; level = q i; long = c.long }

apply_day-twice : (d : DayRule) → apply_day (apply_day d) ≡ apply_day d
apply_day-twice d = let p = int_or-twice d.on (pos 1) in λ i. record { keep = d.keep; on = p i }

apply_retention-twice : (r : Retention) → apply_retention (apply_retention r) ≡ apply_retention r
apply_retention-twice r =
    let p = on_some-twice apply_day apply_day-twice r.monthly in
    let q = int_or-twice r.min_keep (pos 1) in λ i. record r { monthly = p i; min_keep = q i }

apply_verify-twice : (v : VerifySpec) → apply_verify (apply_verify v) ≡ apply_verify v
apply_verify-twice v = let p = text_or-twice v.level "integrity" in λ i. record v { level = p i }

inherited-twice :
    {A : Type 0} (f : A → A)
    → ((a : A) → f (f a) ≡ f a)
    → (o d : Option A)
    → on_some f (option_or (on_some f (option_or o d)) d) ≡ on_some f (option_or o d)
inherited-twice f h o d = ap (on_some f) (option_or-twice f o d) ∙ on_some-twice f h (option_or o d)

apply_target-twice :
    (d : Defaults) (t : Target) → apply_target d (apply_target d t) ≡ apply_target d t
unfolding apply_target
apply_target-twice d t =
    let c = inherited-twice apply_compression apply_compression-twice t.compression d.compression in
    let e = option_or-same t.encryption d.encryption in
    let r = inherited-twice apply_retention apply_retention-twice t.retention d.retention in
    let w = option_or-same t.timeout d.timeout in
    let n = option_or-same t.notify (copied d.notify) in
    let s = text_or-twice t.spool d.spool in
    let o = text_or-twice t.on_overlap d.on_overlap in
    let k = text_or-twice t.row_estimate d.row_estimate in
    let v = on_some-twice apply_verify apply_verify-twice t.verify in
    λ i. record t {
      compression = c i;
      encryption = e i;
      retention = r i;
      timeout = w i;
      notify = n i;
      spool = s i;
      on_overlap = o i;
      row_estimate = k i;
      verify = v i;
    }

inherits-compression :
    (o d : Option Compression)
    → is_some (
        on_some apply_compression
          (option_or o (on_some apply_compression (option_or d (some builtin_compression)))))
      ≡ true
inherits-compression (some c) d = refl
inherits-compression none none = refl
inherits-compression none (some c) = refl

inherits-timeout :
    (o d : Option ℤ) → is_some (option_or o (option_or d (some builtin_timeout))) ≡ true
inherits-timeout (some c) d = refl
inherits-timeout none none = refl
inherits-timeout none (some c) = refl

-- A target is resolved in one pass: resolving it again, by the same defaults, changes nothing. By resolved
-- defaults it has a compression and a timeout, and what it says of encryption is what it or the defaults
-- declare, and nothing where neither does.
pub apply_target-resolved :
    (d : Defaults) (t : Target)
    → (apply_target d (apply_target d t) ≡ apply_target d t)
      × (is_some (apply_target (apply_block d) t).compression ≡ true)
      × (is_some (apply_target (apply_block d) t).timeout ≡ true)
      × ((apply_target (apply_block d) t).encryption ≡ option_or t.encryption d.encryption)
unfolding apply_target
apply_target-resolved d t = (
  apply_target-twice d t,
  inherits-compression t.compression d.compression,
  inherits-timeout t.timeout d.timeout,
  refl,
)
