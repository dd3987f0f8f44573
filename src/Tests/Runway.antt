-- ===== src/Tests/Runway.antt =====
-- Node 0 of three; a unit of node 1 for each of two rounds, and a fork of the first.
use aleph_bft.Prelude.{
  subst, get_elem?, arith, ℕ, ◌+◌, ◌*◌, ◌≡◌, refl, ◌⊎◌, Bool, true, false, Option, none, some, List,
  [], ◌∷◌, nat_eq, ◌==◌, ok, All, Returns, ℕ_discrete,
}
use aleph_bft.Prelude.HashMap
use aleph_bft.Nodes.NodeSubset
use aleph_bft.Units.{UnitHasher, ParentHasher, hash_of}
use aleph_bft.Units.Store.{SignedUnit, UnitCoord-discrete, coord_eq, coord_of}
use aleph_bft.Alerts.{UncheckedSignedUnit}
use aleph_bft.Alerts.Claims.{verifies}
use aleph_bft.Runway.Message.{Keys, Request, RunwayNotificationIn, try_from, new_unit}
use aleph_bft.Runway.State
use aleph_bft.Runway.State.{open_channel}
use aleph_bft.Runway.State.{Runway}
use aleph_bft.Runway.Accepted.{IsAcceptable, validate_unit_accepts}
use aleph_bft.Runway.Validate.{validate_unit}
use aleph_bft.Runway.Receive.{on_unit_received, add_unit_to_store_unless_fork}
use aleph_bft.Runway.Requests.{on_parents_response, on_unit_message}
use aleph_bft.Runway.Forks.{IsAlerted, add_unit_to_store_unless_fork-IsAlerted}
use aleph_bft.Runway.Total.{IsSound, on_unit_received-IsSound}
use aleph_bft.Runway.Total.Response.{Responded, on_parents_response-Responded}
use aleph_bft.Runway.Total.Message.{IsRunning, on_unit_message-IsRunning}
use aleph_bft.Network.{units, included_data, data_of}
use aleph_bft.Network.Included.{Buffered}
use aleph_bft.Network.Ordering.{on_unit_message-included_data}

instance abbrev toy_hasher : UnitHasher ℕ ℕ
toy_hasher = record { hash_unit = λ p d session. p.coord.round * 100 + p.coord.creator * 10 + d }

instance abbrev toy_combine : ParentHasher ℕ
toy_combine = record { hash_parents = λ m. 0 }

abbrev unit_of : ℕ → ℕ → ℕ → List Bool → UncheckedSignedUnit ℕ ℕ ℕ
unit_of round creator d mask = record {
  signable = record {
    pre_unit = record {
      coord = record { round = round; creator = creator };
      control_hash = record { parents_mask = mask; combined_hash = 0 };
    };
    unit_data = d;
    session_id = 7;
    hash = none;
  };
  signature = creator;
}

abbrev no_parents : List Bool
no_parents = false ∷ false ∷ false ∷ []

abbrev first : UncheckedSignedUnit ℕ ℕ ℕ
first = unit_of 0 1 5 no_parents

abbrev second : UncheckedSignedUnit ℕ ℕ ℕ
second = unit_of 0 1 6 no_parents

-- A signature is the index of the signer.
abbrev keys : Keys ℕ ℕ ℕ
keys = record {
  units = record { index = 0; sign = λ q. 0; verify = λ q s i. s == i };
  responses = record { index = 0; sign = λ r. 0; verify = λ r s i. s == i };
}

abbrev start : Runway ℕ ℕ ℕ
unfolding State.new
start = State.new 0 7 3 20 99

abbrev holding : Runway ℕ ℕ ℕ
holding = record start {
  store = record start.store {
    by_hash = (15, record { unchecked = first }) ∷ [];
    by_coord = ((record { round = 0; creator = 1 }), record { unchecked = first }) ∷ [];
    legit_buffer = (record { unchecked = first }) ∷ [];
  };
}

receives : on_unit_received start keys first false ≡ ok holding
unfolding on_unit_received start NodeSubset.size NodeSubset.elements
receives = refl

without_own_parent : validate_unit start keys (unit_of 1 1 5 (true ∷ false ∷ true ∷ [])) ≡ ok none
unfolding validate_unit start NodeSubset.size NodeSubset.elements
without_own_parent = refl

abbrev forked : Runway ℕ ℕ ℕ
unfolding start
forked = record holding {
  store = record holding.store { forkers = false ∷ true ∷ false ∷ [] };
  alerts_for_alerter = record {
    sent =
        (record { sender = 0; proof = (second, first); legit_units = first ∷ []; hash = none })
        ∷ [];
    is_open = true;
  };
}

alerts : on_unit_received holding keys second false ≡ ok forked
unfolding on_unit_received forked NodeSubset.size NodeSubset.elements UnitCoord-discrete ℕ_discrete
alerts = refl

start-IsSound : IsSound 3 0 open_channel start
unfolding start HashMap.get
start-IsSound = record {
  members = refl;
  own = refl;
  stored = record {
    keyed = λ q su found. cc;
    placed = λ c su found. cc;
    covered = λ q su found. cc;
  };
  marks = refl;
  same_told = refl;
}

holding-IsSound : IsSound 3 0 open_channel holding
holding-IsSound =
    subst (Returns (IsSound 3 0 open_channel)) receives
      (on_unit_received-IsSound 3 0 open_channel start keys first start-IsSound)

validate_unit_accepts_example :
    (r : Option (SignedUnit ℕ ℕ ℕ)) × (validate_unit start keys first ≡ ok r)
    × ((r ≡ some (record { unchecked = first }))
          × (verifies keys.units first ≡ true)
          × IsAcceptable start (record { unchecked = first })
        ⊎ (r ≡ none)
          × ¬ (
              (verifies keys.units first ≡ true)
              × IsAcceptable start (record { unchecked = first })))
validate_unit_accepts_example = validate_unit_accepts start keys first

on_parents_response-Responded_example :
    Returns (Responded 3 0 open_channel holding 15) (on_parents_response holding keys 15 [])
on_parents_response-Responded_example =
    on_parents_response-Responded 3 0 open_channel holding keys 15 [] holding-IsSound

on_unit_message-IsRunning_example :
    Returns
      (IsRunning 3 0)
      (on_unit_message holding keys (RunwayNotificationIn.request (Request.newest_unit 12) 1))
on_unit_message-IsRunning_example =
    on_unit_message-IsRunning 3 0 holding keys
      (RunwayNotificationIn.request (Request.newest_unit 12) 1) refl (open_channel, holding-IsSound)

not_marked :
    (get_elem? holding.store.forkers 1 ≡ some false)
    × (HashMap.get (hash_of second.signable) holding.store.by_hash ≡ none)
    × (HashMap.get (coord_of second.signable) holding.store.by_coord
        ≡ some (record { unchecked = first }))
    × (holding.store.max_round ≡ 20)
unfolding start HashMap.get hash_of UnitCoord-discrete ℕ_discrete
not_marked = (refl, refl, refl, refl)

add_unit_to_store_unless_fork-IsAlerted_example :
    (s' : Runway ℕ ℕ ℕ) × (add_unit_to_store_unless_fork holding (record { unchecked = second })
      ≡ ok s')
    × IsAlerted holding (record { unchecked = second }) (record { unchecked = first }) s'
add_unit_to_store_unless_fork-IsAlerted_example =
    add_unit_to_store_unless_fork-IsAlerted holding (record { unchecked = second })
      (record { unchecked = first }) holding-IsSound.stored (omega (arith, not_marked.3))
      not_marked.0 not_marked.1 not_marked.2

takes_in : on_unit_message start keys (try_from (new_unit first)) ≡ ok holding
unfolding on_unit_message try_from
takes_in = receives

abbrev IsFive : ℕ → Type 0
IsFive d = d ≡ 5

starts_well :
    Buffered (λ u. IsFive (data_of u)) start.store
    × All IsFive (included_data {H = ℕ} {D = ℕ} {S = ℕ} {M = ℕ} (units (new_unit first)))
unfolding start included_data
starts_well = (tt, (refl, tt))

on_unit_message-included_data_example : Buffered (λ u. IsFive (data_of u)) holding.store
on_unit_message-included_data_example =
    on_unit_message-included_data ℕ IsFive start holding keys (new_unit first) starts_well.0
      starts_well.1 takes_in
