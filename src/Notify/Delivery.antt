-- ===== src/Notify/Delivery.antt =====
-- About internal/notify/notify.go: deliveries that fail.
use vaultd.Base.{
  ℕ, ◌+◌, ◌<◌, String, Bool, true, false, List, [], ◌∷◌, ◌==◌, ◌≡◌, refl, ap, Bool-cases, inl, inr,
}
use vaultd.Notify.Fanout.{Subscription, Notification, Sent, wants, suppress, Deliveries, notify}
use vaultd.Notify.Window.{let_through-IsSince, since-suppressed}

-- Two runs of `Notify` tried the same notifiers and remember the same.
abbrev pub AreAlike : Deliveries × Sent → Deliveries × Sent → Type 0
AreAlike a b = (a.0.tried ≡ b.0.tried) × (a.1 ≡ b.1)

-- Which notifiers are tried, and what is remembered, does not depend on which deliveries fail: a broken
-- endpoint costs no other notifier its copy of an event.
pub notify-AreAlike :
    (first second : String → Bool) (subs : List Subscription) (n : Notification) (now : ℕ)
    (sent : Sent)
    → AreAlike (notify first subs n now sent) (notify second subs n now sent)
unfolding notify
notify-AreAlike first second [] n now sent = (refl, refl)
notify-AreAlike first second (sub ∷ subs) n now sent =
    let s = suppress sub n now sent in
    let skipped = notify-AreAlike first second subs n now sent in
    let later = notify-AreAlike first second subs n now s.1 in
    elim (Bool-cases (wants sub n.event)) [
      | inl a ↦ elim (Bool-cases s.0) [
        | inl q ↦ rw (a, q) (later.0, later.1)
        | inr q ↦ rw (a, q) (ap (λ t. sub.name ∷ t) later.0, later.1)
      ]
      | inr a ↦ rw a skipped
    ]

-- A delivery that fails is remembered as one that was made: to a notifier with a window, alone among the
-- subscriptions, the same event is not tried again before the window has passed, even though nothing
-- arrived.
pub notify-lost :
    (first second : String → Bool) (sub : Subscription) (n : Notification) (t now : ℕ) (sent : Sent)
    → wants sub n.event ≡ true
    → (sub.dedup == 0) ≡ false
    → (suppress sub n t sent).0 ≡ false
    → first sub.name ≡ false
    → now < t + sub.dedup
    → ((notify first (sub ∷ []) n t sent).0.failures ≡ sub.name ∷ [])
      × ((notify second (sub ∷ []) n now (notify first (sub ∷ []) n t sent).1).0.tried ≡ [])
unfolding notify
notify-lost first second sub n t now sent a z h f w =
    let q =
      since-suppressed sub n t now (suppress sub n t sent).1 z
        (let_through-IsSince sub n t sent z h) w in
    (rw (a, h, f) refl, rw (a, q) refl)
