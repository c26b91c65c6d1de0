-- ===== src/Approvals.antt =====
-- pkg/proxy/approvals.go: the approval store, shared by the request goroutines that wait in
-- `WaitForApproval` and by the terminal and the /approve endpoint that decide. A waiter is the
-- number of its channel; `channel` is the heap that holds the channels' one-place buffers.
pub mod Granting
pub mod Waiting
pub mod Pending
use agentsecrets.Prelude.{
  ℕ, suc, ◌+◌, Bool, true, false, not, ◌&&◌, Option, none, some, List, [], ◌∷◌, ◌++◌, ltb, ◌==◌,
  if◌then◌else◌, length, is_empty, is_some, lookup_by, put_by, remove_by, ◌≡◌,
}
use agentsecrets.Text.{Str, str_eq}

pub record ApprovalKey : Type 0 where
  pub agent_id : Str
  pub secret_key : Str
  pub domain : Str
  pub method : Str

unfoldable pub key_eq : ApprovalKey → ApprovalKey → Bool
key_eq a b =
    str_eq a.agent_id b.agent_id
    && str_eq a.secret_key b.secret_key
    && str_eq a.domain b.domain
    && str_eq a.method b.method

pub record ApprovalStore : Type 0 where
  pub granted : List (ApprovalKey × ℕ)
  pub pending : List (ApprovalKey × List ℕ)
  pub notify : List ApprovalKey

abbrev pub new_approval_store : ApprovalStore
new_approval_store = record { granted = []; pending = []; notify = [] }

unfoldable pub is_approved : ApprovalStore → ApprovalKey → Bool
is_approved s k = is_some (lookup_by key_eq k s.granted)

-- s.pending[k]; nil for a missing key.
unfoldable pub waiters_of : ApprovalKey → List (ApprovalKey × List ℕ) → List ℕ
waiters_of k pending = elim (lookup_by key_eq k pending) [ none ↦ [] | some ws ↦ ws ]

-- The contents of the channels, each of capacity 1.
abbrev pub Channels : Type 0
Channels = ℕ → Option Bool

-- `select { case w.ch <- b: default: }`
unfoldable pub try_send : ℕ → Bool → Channels → Channels
try_send w b ch v = if v == w then (elim (ch w) [ none ↦ some b | some old ↦ some old ]) else ch v

unfoldable pub send_all : List ℕ → Bool → Channels → Channels
unfolding try_send
send_all [] b ch = ch
send_all (w ∷ ws) b ch = send_all ws b (try_send w b ch)

-- The store with the heap of channels and the goroutines that are blocked in `WaitForApproval`,
-- each by its waiter; `fresh` is the next channel.
pub record World : Type 0 where
  pub store : ApprovalStore
  pub channel : Channels
  pub blocked : List (ℕ × ApprovalKey)
  pub fresh : ℕ

abbrev pub initial : World
initial = record { store = new_approval_store; channel = λ _. none; blocked = []; fresh = 0 }

unfoldable pub approve : ApprovalKey → ℕ → World → World
approve k now w = record w {
  store = record w.store {
    granted = put_by key_eq k now w.store.granted;
    pending = remove_by key_eq k w.store.pending;
  };
  channel = send_all (waiters_of k w.store.pending) true w.channel;
}

unfoldable pub deny : ApprovalKey → World → World
deny k w = record w {
  store = record w.store { pending = remove_by key_eq k w.store.pending };
  channel = send_all (waiters_of k w.store.pending) false w.channel;
}

unfoldable pub list_pending : List (ApprovalKey × List ℕ) → List ApprovalKey
list_pending [] = []
list_pending ((k, ws) ∷ pending) =
    let keys = list_pending pending in if is_empty ws then keys else k ∷ keys

-- `select { case s.notify <- k: default: }` on a channel of capacity 32.
abbrev try_notify : ApprovalKey → List ApprovalKey → List ApprovalKey
try_notify k notify = if ltb (length notify) 32 then notify ++ k ∷ [] else notify

-- The first part of `WaitForApproval` behind the fast path: a new channel is registered.
unfoldable pub register : ApprovalKey → World → World
register k w = record {
  store = record w.store {
    pending = put_by key_eq k (waiters_of k w.store.pending ++ w.fresh ∷ []) w.store.pending;
    notify = try_notify k w.store.notify;
  };
  channel = λ v. if v == w.fresh then none else w.channel v;
  blocked = (w.fresh, k) ∷ w.blocked;
  fresh = w.fresh + 1;
}

-- The loop of `removeWaiter`: the first occurrence goes.
unfoldable pub erase : ℕ → List ℕ → List ℕ
erase target [] = []
erase target (w ∷ ws) = if w == target then ws else w ∷ erase target ws

unfoldable pub remove_waiter :
    ApprovalKey → ℕ → List (ApprovalKey × List ℕ) → List (ApprovalKey × List ℕ)
remove_waiter k target pending =
    let left = erase target (waiters_of k pending) in
    if is_empty left then remove_by key_eq k pending else put_by key_eq k left pending

unfoldable pub unblock : ℕ → List (ℕ × ApprovalKey) → List (ℕ × ApprovalKey)
unblock v [] = []
unblock v ((w, k) ∷ blocked) =
    let rest = unblock v blocked in if w == v then rest else (w, k) ∷ rest

-- `case <-time.After(timeout)`
unfoldable pub time_out : ApprovalKey → ℕ → World → World
time_out k v w = record w {
  store = record w.store { pending = remove_waiter k v w.store.pending };
  blocked = unblock v w.blocked;
}

-- `case result := <-w.ch`
unfoldable pub receive : ℕ → World → World
receive v w = record w {
  channel = λ u. if u == v then none else w.channel u;
  blocked = unblock v w.blocked;
}

-- What the goroutines and the developer may do, in any order. `WaitForApproval` answers `true` at
-- once by `fast`, the received value by `answer`, and `false` by `expire`.
pub data Event : Type 0 where
  approving : ApprovalKey → ℕ → Event
  denying : ApprovalKey → Event
  fast : ApprovalKey → Event
  waiting : ApprovalKey → Event
  answer : ℕ → ApprovalKey → Bool → Event
  expire : ℕ → ApprovalKey → Event
  notified : ApprovalKey → List ApprovalKey → Event

abbrev pub find : ℕ → List (ℕ × ApprovalKey) → Option ApprovalKey
find v [] = none
find v ((w, k) ∷ blocked) = if w == v then some k else find v blocked

pub data Step : World → Event → World → Type 0 where
  approved : (w : World) (k : ApprovalKey) (now : ℕ) → Step w (approving k now) (approve k now w)
  denied : (w : World) (k : ApprovalKey) → Step w (denying k) (deny k w)
  passed : (w : World) (k : ApprovalKey) → is_approved w.store k ≡ true → Step w (fast k) w
  waited : (w : World) (k : ApprovalKey) → Step w (waiting k) (register k w)
  answered :
      (w : World) (v : ℕ) (k : ApprovalKey) (b : Bool)
      → find v w.blocked ≡ some k
      → w.channel v ≡ some b
      → Step w (answer v k b) (receive v w)
  expired :
      (w : World) (v : ℕ) (k : ApprovalKey)
      → find v w.blocked ≡ some k
      → Step w (expire v k) (time_out k v w)
  prompted :
      (w : World) (k : ApprovalKey) (rest : List ApprovalKey)
      → w.store.notify ≡ k ∷ rest
      → Step w (notified k rest) (record w { store = record w.store { notify = rest } })

-- A run from the start; the events stand last first.
pub data Run : List Event → World → Type 0 where
  start : Run [] initial
  next : {es : List Event} {w u : World} {e : Event} → Run es w → Step w e u → Run (e ∷ es) u
