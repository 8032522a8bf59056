-- ===== src/Notify/Window.antt =====
-- About internal/notify/notify.go: the window in which an event is not repeated.
use vaultd.Base.{
  ℕ, ◌+◌, ◌≤◌, ◌<◌, true, false, some, List, [], ◌∷◌, ◌==◌, =s=_self, ltb, lt→ltb, ◌≡◌, refl, arith,
  Bool-cases, All, inl, inr,
}
use vaultd.Notify.Fanout.{
  Subscription, Notification, DedupKey, same_key, Sent, key_of, set_sent, is_recent, suppress,
}

-- A call of `suppress`.
pub record Call : Type 0 where
  pub sub : Subscription
  pub n : Notification
  pub now : ℕ

-- The map after some calls.
unfoldable pub after_calls : List Call → Sent → Sent
after_calls [] sent = sent
after_calls (c ∷ cs) sent = after_calls cs (suppress c.sub c.n c.now sent).1

-- The last delivery for a key is not before a time.
abbrev IsSince : DedupKey → ℕ → Sent → Type 0
IsSince key t sent = (last : ℕ) × (sent key ≡ some last) × (t ≤ last)

same_key_self : (k : DedupKey) → same_key k k ≡ true
same_key_self k = rw (=s=_self k.notifier, =s=_self k.target, =s=_self k.event) refl

set_sent-IsSince :
    (key k : DedupKey) (t now : ℕ) (sent : Sent)
    → t ≤ now
    → IsSince key t sent
    → IsSince key t (set_sent k now sent)
set_sent-IsSince key k t now sent h (last, e, l) = elim (Bool-cases (same_key key k)) [
  | inl s ↦ (now, rw s refl, h)
  | inr s ↦ (last, rw s e, l)
]

suppress-IsSince :
    (key : DedupKey) (t : ℕ) (c : Call) (sent : Sent)
    → t ≤ c.now
    → IsSince key t sent
    → IsSince key t (suppress c.sub c.n c.now sent).1
unfolding suppress
suppress-IsSince key t c sent h since = elim (Bool-cases (c.sub.dedup == 0)) [
  | inl z ↦ rw z since
  | inr z ↦ elim (Bool-cases (is_recent (sent (key_of c.sub c.n)) c.sub.dedup c.now)) [
    | inl r ↦ rw (z, r) since
    | inr r ↦ rw (z, r) (set_sent-IsSince key (key_of c.sub c.n) t c.now sent h since)
  ]
]

after_calls-IsSince :
    (key : DedupKey) (t : ℕ) (cs : List Call) (sent : Sent)
    → All (λ (c : Call). t ≤ c.now) cs
    → IsSince key t sent
    → IsSince key t (after_calls cs sent)
unfolding after_calls
after_calls-IsSince key t [] sent h since = since
after_calls-IsSince key t (c ∷ cs) sent (hc, h) since =
    after_calls-IsSince key t cs (suppress c.sub c.n c.now sent).1 h
      (suppress-IsSince key t c sent hc since)

pub let_through-IsSince :
    (sub : Subscription) (n : Notification) (t : ℕ) (sent : Sent)
    → (sub.dedup == 0) ≡ false
    → (suppress sub n t sent).0 ≡ false
    → IsSince (key_of sub n) t (suppress sub n t sent).1
unfolding suppress
let_through-IsSince sub n t sent z h =
    elim (Bool-cases (is_recent (sent (key_of sub n)) sub.dedup t)) [
      | inl r ↦ absurd (ground (arith, simp (z, r) at h))
      | inr r ↦ rw (z, r) (t, rw (same_key_self (key_of sub n)) refl, omega arith)
    ]

pub since-suppressed :
    (sub : Subscription) (n : Notification) (t now : ℕ) (sent : Sent)
    → (sub.dedup == 0) ≡ false
    → IsSince (key_of sub n) t sent
    → now < t + sub.dedup
    → (suppress sub n now sent).0 ≡ true
unfolding suppress
since-suppressed sub n t now sent z (last, e, l) h =
    let r : ltb now (last + sub.dedup) ≡ true =
      lt→ltb now (last + sub.dedup) (omega (arith, l, h)) in
    rw (z, e, r) refl

-- Once an event of a target was let through to a notifier with a window, it is suppressed for as long as the
-- window lasts, whatever other events came in between, and by a clock that does not go back.
pub suppress-window :
    (sub : Subscription) (n : Notification) (t now : ℕ) (cs : List Call) (sent : Sent)
    → (sub.dedup == 0) ≡ false
    → (suppress sub n t sent).0 ≡ false
    → All (λ (c : Call). t ≤ c.now) cs
    → now < t + sub.dedup
    → (suppress sub n now (after_calls cs (suppress sub n t sent).1)).0 ≡ true
suppress-window sub n t now cs sent z h k w =
    since-suppressed sub n t now (after_calls cs (suppress sub n t sent).1) z
      (after_calls-IsSince (key_of sub n) t cs (suppress sub n t sent).1 k
        (let_through-IsSince sub n t sent z h))
      w
