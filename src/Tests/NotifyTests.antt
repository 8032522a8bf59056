-- ===== src/Tests/NotifyTests.antt =====
-- Instances of the theorems about internal/notify.
use vaultd.Base.{true, false, none, List, [], ◌∷◌, ◌≡◌, refl, arith}
use vaultd.Notify.Fanout.{Subscription, Notification, Sent, suppress, notify}
use vaultd.Notify.Window.{Call, after_calls, suppress-window}
use vaultd.Notify.Delivery.{AreAlike, notify-AreAlike, notify-lost}

abbrev chat : Subscription
chat = record { name = "chat"; events = "backup.failed" ∷ "verify.failed" ∷ []; dedup = 60 }

abbrev pager : Subscription
pager = record { name = "pager"; events = "backup.failed" ∷ []; dedup = 0 }

abbrev broken : Notification
broken = record { event = "backup.failed"; target = "db" }

abbrev nothing_sent : Sent
nothing_sent key = none

abbrev between : List Call
between =
    record { sub = pager; n = broken; now = 110 }
    ∷ record { sub = chat; n = broken; now = 120 }
    ∷ []

let_through : (suppress chat broken 100 nothing_sent).0 ≡ false
unfolding suppress
let_through = refl

suppress-window_example :
    (suppress chat broken 150 (after_calls between (suppress chat broken 100 nothing_sent).1)).0
    ≡ true
suppress-window_example =
    suppress-window chat broken 100 150 between nothing_sent refl let_through
      (omega arith, (omega arith, tt)) (omega arith)

tried_test :
    (notify (λ n. false) (chat ∷ pager ∷ []) broken 100 nothing_sent).0.tried
    ≡ "chat" ∷ "pager" ∷ []
unfolding notify suppress
tried_test = refl

notify-AreAlike_example :
    AreAlike
      (notify (λ n. false) (chat ∷ pager ∷ []) broken 100 nothing_sent)
      (notify (λ n. true) (chat ∷ pager ∷ []) broken 100 nothing_sent)
notify-AreAlike_example =
    notify-AreAlike (λ n. false) (λ n. true) (chat ∷ pager ∷ []) broken 100 nothing_sent

notify-lost_example :
    ((notify (λ n. false) (chat ∷ []) broken 100 nothing_sent).0.failures ≡ "chat" ∷ [])
    × ((notify
          (λ n. true)
          (chat ∷ [])
          broken
          150
          (notify (λ n. false) (chat ∷ []) broken 100 nothing_sent).1).0.tried
        ≡ [])
notify-lost_example =
    notify-lost (λ n. false) (λ n. true) chat broken 100 150 nothing_sent refl refl let_through refl
      (omega arith)
