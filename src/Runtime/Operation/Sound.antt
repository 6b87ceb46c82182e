-- ===== src/Runtime/Operation/Sound.antt =====
-- operation.rs: what holds of an operation between two critical sections, over any order of calls.
use easycon_sdk.Common.{
  ℕ, zero, suc, ◌≡◌, refl, Bool, true, false, Option, none, some, is_some, List, [], ◌∷◌, arith,
  ◌⊎◌, inr, get_elem?,
}
use easycon_sdk.Model.Error.{EasyConError, Result}
use easycon_sdk.Runtime.Arbiter.{Evidence, Winner, ArbiterState, commit, same_winner}
use easycon_sdk.Runtime.Operation.{
  OperationState, pending, running, cancelling, succeeded, failed, cancelled, is_terminal,
  OperationValue, CancellationReason, TerminalCandidate, ClaimedTerminalTransaction,
  ClaimedTerminalState, finishing, OwnerCleanup, CleanupObserver, OperationOwnerData, OperationData,
  Finishing,
}
use easycon_sdk.Runtime.Operation.Legacy.{LegacyTerminalRequest}
use easycon_sdk.Runtime.Operation.Finish.{commit_owner, projected, finish_claimed_terminal}
use easycon_sdk.Runtime.Operation.System.{
  System, land, Call, starts, cancels, fails_strictly, ends, claims, announces, finishes_claim,
  abandons, records, binds, joins, falls_back, commits, step, run,
}

-- A result is there exactly for a success, and an error exactly for a failure or a cancellation.
abbrev pub Consistent : OperationState → Option OperationValue → Option EasyConError → Type 0
Consistent succeeded (some v) none = Unit {0}
Consistent failed none (some e) = Unit {0}
Consistent cancelled none (some e) = Unit {0}
Consistent pending none none = Unit {0}
Consistent running none none = Unit {0}
Consistent cancelling none none = Unit {0}
Consistent _ _ _ = ⊥

abbrev is_finishing : ClaimedTerminalState → Bool
is_finishing finishing = true
is_finishing _ = false

-- An owner whose callbacks have not run, before and after its claim.
abbrev Waiting : Option ClaimedTerminalTransaction → OperationOwnerData → Bool → Type 0
Waiting none o in_progress =
    (in_progress ≡ false)
    × (o.arbiter.winner ≡ none)
    × (o.arbiter.committed ≡ false)
    × (is_some o.cleanup ≡ true)
    × (is_some o.on_cleanup_settled ≡ true)
Waiting (some c) o in_progress =
    (in_progress ≡ true)
    × (is_finishing c.state ≡ false)
    × (c.propagation ≡ true)
    × (o.arbiter.winner ≡ some c.winner)
    × (o.arbiter.active_owner ≡ c.owner_id)
    × (o.arbiter.committed ≡ false)
    × (is_some o.cleanup ≡ true)
    × (is_some o.on_cleanup_settled ≡ true)

-- No transaction is in flight.
abbrev Idle : Bool → Option OperationOwnerData → Bool → Type 0
Idle true o in_progress = in_progress ≡ false
Idle false none in_progress = in_progress ≡ false
Idle false (some o) in_progress = Waiting o.claimed o in_progress

abbrev Spent : Option ClaimedTerminalTransaction → Type 0
Spent none = Unit {0}
Spent (some c) = is_finishing c.state ≡ true

abbrev Flying : Option OperationOwnerData → Option (ℕ × Winner) → Type 0
Flying none none = Unit {0}
Flying (some o) (some (id, w)) =
    (o.arbiter.winner ≡ some w)
    × (o.arbiter.active_owner ≡ id)
    × (o.arbiter.committed ≡ false)
    × Spent o.claimed
Flying _ _ = ⊥

abbrev pub InFlight : OperationData → List Finishing → Type 0
InFlight d [] = Idle (is_terminal d.state) d.owner d.terminal_in_progress
InFlight d (f ∷ []) =
    (is_terminal d.state ≡ false) × (d.terminal_in_progress ≡ true) × Flying d.owner f.owner_commit
InFlight d (f ∷ g ∷ fs) = ⊥

-- Without a settlement owner only a cancellation has a reason.
abbrev Reasoned : Option OperationOwnerData → OperationState → Option CancellationReason → Type 0
Reasoned none pending (some r) = ⊥
Reasoned none running (some r) = ⊥
Reasoned _ _ _ = Unit {0}

pub record IsSound (s : System) : Type 0 where
  pub consistent : Consistent s.data_now.state s.data_now.result s.data_now.error
  pub in_flight : InFlight s.data_now s.flights
  pub announced :
      (s.announcing ≡ 0)
      ⊎ (s.data_now.terminal_in_progress ≡ true)
      ⊎ (is_terminal s.data_now.state ≡ true)
  pub reasoned : Reasoned s.data_now.owner s.data_now.state s.data_now.cancellation_reason

abbrev Goes : Option System → Type 0
Goes none = ⊥
Goes (some t) = IsSound t

step-starts : (s : System) → IsSound s → Goes (step s starts)
unfolding step
step-starts s v = ground arith

step-cancels : (s : System) (r : CancellationReason) → IsSound s → Goes (step s (cancels r))
unfolding step
step-cancels s r v = ground arith

step-fails_strictly : (s : System) (e : EasyConError) → IsSound s → Goes (step s (fails_strictly e))
unfolding step
step-fails_strictly s e v = ground arith

step-ends :
    (s : System) (r : LegacyTerminalRequest) (c : OwnerCleanup) (o : CleanupObserver)
    → IsSound s
    → Goes (step s (ends r c o))
unfolding step
step-ends s r c o v = ground arith

step-claims :
    (s : System) (id : ℕ) (e : Evidence) (c : TerminalCandidate)
    → IsSound s
    → Goes (step s (claims id e c))
unfolding step
step-claims s id e c v = ground arith

step-announces : (s : System) → IsSound s → Goes (step s announces)
unfolding step
step-announces s v = ground arith

step-finishes_claim :
    (s : System) (id : ℕ) (r : Result (Unit {0})) → IsSound s → Goes (step s (finishes_claim id r))
unfolding step
step-finishes_claim s id r v = ground arith

step-abandons : (s : System) (id : ℕ) → IsSound s → Goes (step s (abandons id))
unfolding step
step-abandons s id v = ground arith

step-records :
    (s : System) (id : ℕ) (e : Evidence) (c : TerminalCandidate)
    → IsSound s
    → Goes (step s (records id e c))
unfolding step
step-records s id e c v = ground arith

step-binds : (s : System) (id task : ℕ) → IsSound s → Goes (step s (binds id task))
unfolding step
step-binds s id task v = ground arith

step-joins : (s : System) (task : ℕ) → IsSound s → Goes (step s (joins task))
unfolding step
step-joins s task v = ground arith

step-falls_back : (s : System) → IsSound s → Goes (step s falls_back)
unfolding step
step-falls_back s v = ground arith

same_winner_refl : (w : Winner) → same_winner w w ≡ true
same_winner_refl Winner.success = refl
same_winner_refl _ = refl

commit-1 :
    (a : ArbiterState) (id : ℕ) (w : Winner)
    → a.winner ≡ some w
    → a.active_owner ≡ id
    → a.committed ≡ false
    → (commit a id w).1 ≡ true
unfolding commit
commit-1 a id w h active open_still = ground (arith, same_winner_refl w)

-- The arbiter commits for a transaction in flight.
commit_owner-Flying :
    (d : OperationData) (o : Option OperationOwnerData) (c : Option (ℕ × Winner))
    → d.owner ≡ o
    → Flying o c
    → (e : OperationData) × (commit_owner d c ≡ some e)
commit_owner-Flying d none none same h = (d, refl)
commit_owner-Flying d (some o) none same h = elim h [ ]
commit_owner-Flying d none (some c) same h = elim h [ ]
commit_owner-Flying d (some o) (some (id, w)) same h = (
  record d { owner = some (record o { arbiter = (commit o.arbiter id w).0 }) },
  rw (same, commit-1 o.arbiter id w h.0 h.1 h.2) refl,
)

projected_terminal :
    (d : OperationData) (f : Finishing)
    → let e = projected d f in
      Consistent e.state e.result e.error
      × (is_terminal e.state ≡ true)
      × (e.terminal_in_progress ≡ false)
unfolding projected
projected_terminal d f = ground arith

terminal-Reasoned :
    (o : Option OperationOwnerData) (st : OperationState) (r : Option CancellationReason)
    → is_terminal st ≡ true
    → Reasoned o st r
terminal-Reasoned o st r h = ground arith

landed-IsSound :
    (s : System) (e : OperationData) (f : Finishing)
    → IsSound (record s { data_now = projected e f; flights = [] })
landed-IsSound s e f =
    let (consistent, terminal, ended) = projected_terminal e f in
    record {
      consistent = consistent;
      in_flight = rw terminal ended;
      announced = inr (inr terminal);
      reasoned = terminal-Reasoned _ _ _ terminal;
    }

lands :
    (s : System) (fs : List Finishing) (i : ℕ)
    → s.flights ≡ fs
    → IsSound s
    → Goes (land s i (get_elem? fs i))
unfolding finish_claimed_terminal
lands s [] i same v = v
lands s (f ∷ g ∷ fs) i same v = absurd (ground (arith, v.in_flight))
lands s (f ∷ []) (suc i) same v = v
lands s (f ∷ []) zero same v =
    let flying : Flying s.data_now.owner f.owner_commit = ground (arith, v.in_flight) in
    let (e, accepted) =
      commit_owner-Flying s.data_now s.data_now.owner f.owner_commit refl flying in
    rw (accepted, same) (landed-IsSound s e f)

step-commits : (s : System) (i : ℕ) → IsSound s → Goes (step s (commits i))
unfolding step
step-commits s i v = lands s s.flights i refl v

step-IsSound : (s : System) (c : Call) → IsSound s → Goes (step s c)
step-IsSound s starts v = step-starts s v
step-IsSound s (cancels r) v = step-cancels s r v
step-IsSound s (fails_strictly e) v = step-fails_strictly s e v
step-IsSound s (ends r c o) v = step-ends s r c o v
step-IsSound s (claims id e c) v = step-claims s id e c v
step-IsSound s announces v = step-announces s v
step-IsSound s (finishes_claim id r) v = step-finishes_claim s id r v
step-IsSound s (abandons id) v = step-abandons s id v
step-IsSound s (records id e c) v = step-records s id e c v
step-IsSound s (binds id task) v = step-binds s id task v
step-IsSound s (joins task) v = step-joins s task v
step-IsSound s falls_back v = step-falls_back s v
step-IsSound s (commits i) v = step-commits s i v

reached : (r : Option System) → Goes r → (t : System) × (r ≡ some t) × IsSound t
reached none h = elim h [ ]
reached (some t) h = (t, refl, h)

pub step_total :
    (s : System) (c : Call) → IsSound s → (t : System) × (step s c ≡ some t) × IsSound t
step_total s c v = reached (step s c) (step-IsSound s c v)

-- No call panics, in any order: from a sound operation every sequence of calls runs to its end, and the
-- operation is sound there: the result and the error fit the state, at most one terminal transaction is
-- in flight, it holds the operation's claim, and its callbacks have been taken once.
pub run_total :
    (cs : List Call) (s : System) → IsSound s → (t : System) × (run cs s ≡ some t) × IsSound t
unfolding run
run_total [] s v = (s, refl, v)
run_total (c ∷ cs) s v =
    let (t, there, sound) = step_total s c v in
    let (u, later, at_end) = run_total cs t sound in (u, rw (there) later, at_end)
