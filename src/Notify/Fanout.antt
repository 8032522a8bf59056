-- ===== src/Notify/Fanout.antt =====
-- internal/notify/notify.go: `Subscription`, `Fanout.Notify` and `suppress`. A window that is not positive is 0,
-- and `Notify` reads the clock once.
use vaultd.Base.{
  ℕ, ◌+◌, String, Bool, true, false, ◌&&◌, Option, none, some, List, [], ◌∷◌, if◌then◌else◌, ◌==◌,
  ◌=s=◌, ltb, any_of,
}

-- `Subscription`, without its notifier.
pub record Subscription : Type 0 where
  pub name : String
  pub events : List String
  pub dedup : ℕ

-- `core.Notification`, as far as the fanout reads it.
pub record Notification : Type 0 where
  pub event : String
  pub target : String

-- `dedupKey`.
pub record DedupKey : Type 0 where
  pub notifier : String
  pub target : String
  pub event : String

abbrev pub same_key : DedupKey → DedupKey → Bool
same_key a b = (a.notifier =s= b.notifier) && ((a.target =s= b.target) && (a.event =s= b.event))

-- The map `sent`.
abbrev pub Sent : Type 0
Sent = DedupKey → Option ℕ

-- `Subscription.wants`.
abbrev pub wants : Subscription → String → Bool
wants sub event = any_of (λ e. e =s= event) sub.events

abbrev pub key_of : Subscription → Notification → DedupKey
key_of sub n = record { notifier = sub.name; target = n.target; event = n.event }

abbrev pub set_sent : DedupKey → ℕ → Sent → Sent
set_sent key now sent k = if same_key k key then some now else sent k

-- Whether a delivery of this time is less than the window ago. The clock is monotonic.
abbrev pub is_recent : Option ℕ → ℕ → ℕ → Bool
is_recent none window now = false
is_recent (some last) window now = ltb now (last + window)

-- `Fanout.suppress`.
unfoldable pub suppress : Subscription → Notification → ℕ → Sent → Bool × Sent
suppress sub n now sent =
    if sub.dedup == 0
    then (false, sent)
    else if is_recent (sent (key_of sub n)) sub.dedup now
    then (true, sent)
    else (false, set_sent (key_of sub n) now sent)

-- What `Notify` has tried, and what failed.
pub record Deliveries : Type 0 where
  pub tried : List String
  pub failures : List String

abbrev delivered : Bool → String → Deliveries → Deliveries
delivered ok name d = record {
  tried = name ∷ d.tried;
  failures = if ok then d.failures else name ∷ d.failures;
}

abbrev unless_suppressed : Bool → Bool → String → Deliveries → Deliveries
unless_suppressed suppressed ok name d = if suppressed then d else delivered ok name d

-- `Fanout.Notify`. `succeeds` says whether the delivery to a notifier does.
unfoldable pub notify :
    (String → Bool) → List Subscription → Notification → ℕ → Sent → Deliveries × Sent
unfolding suppress
notify succeeds [] n now sent = (record { tried = []; failures = [] }, sent)
notify succeeds (sub ∷ subs) n now sent =
    let asked = wants sub n.event in
    let (suppressed, after) = suppress sub n now sent in
    let (skipped, s) = notify succeeds subs n now sent in
    let (later, t) = notify succeeds subs n now after in
    if asked
    then (unless_suppressed suppressed (succeeds sub.name) sub.name later, t)
    else (skipped, s)
