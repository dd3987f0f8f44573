-- ===== src/Tests/Alerts.antt =====
-- Node 1 signs two units of round 5, with data 7 and 8; node 2 sends an alert about it. The
-- signature of a message by a node is their sum.
use aleph_bft.Prelude.{
  ℕ, ◌+◌, ◌*◌, ◌==◌, ◌≡◌, refl, ◌↔◌, true, false, none, some, [], ◌∷◌, nat_eq, ℕ_discrete,
}
use aleph_bft.Prelude.HashMap
use aleph_bft.Signed.{KeyBox, UncheckedSigned, Signed}
use aleph_bft.Units.{UnitHasher, hash_of}
use aleph_bft.Alerts.{UncheckedSignedUnit, ForkProof, who_is_forking, correct_commitment, same_unit}
use aleph_bft.Alerts.Claims.{IsFork, IsCommitment, who_is_forking_iff, correct_commitment_iff}
use aleph_bft.Alerts.Alerter.{
  Alert, AlertHasher, Alerter, fork_alert, alert_hash, AlertId-discrete, forker, units, on_message,
  alert_confirmed,
}
use aleph_bft.Alerts.Known.{IsProven, Reports, on_message-Reports, on_message-IsProven}

instance abbrev toy_hasher : UnitHasher ℕ ℕ
toy_hasher = record { hash_unit = λ p d session. p.coord.round * 100 + p.coord.creator * 10 + d }

instance abbrev alert_hasher : AlertHasher ℕ ℕ ℕ
alert_hasher = record { hash_alert = λ sender proof legit. 1000 + sender }

abbrev keys : KeyBox ℕ ℕ
keys = record { index = 0; sign = λ m. m; verify = λ m s i. s == m + i }

abbrev unit_of : ℕ → ℕ → UncheckedSignedUnit ℕ ℕ ℕ
unit_of round d = record {
  signable = record {
    pre_unit = record {
      coord = record { round = round; creator = 1 };
      control_hash = record { parents_mask = []; combined_hash = 0 };
    };
    unit_data = d;
    session_id = 0;
    hash = none;
  };
  signature = round * 100 + 1 * 10 + d + 1;
}

abbrev forked : ForkProof ℕ ℕ ℕ
forked = (unit_of 5 7, unit_of 5 8)

abbrev alert : Alert ℕ ℕ ℕ
alert = record {
  sender = 2;
  proof = forked;
  legit_units = unit_of 4 7 ∷ unit_of 5 7 ∷ [];
  hash = none;
}

abbrev received : UncheckedSigned (Alert ℕ ℕ ℕ) ℕ
received = record { signable = alert; signature = 1004 }

abbrev idle : Alerter ℕ ℕ ℕ ℕ
idle = record {
  session_id = 0;
  known_forkers = [];
  known_alerts = [];
  known_rmcs = [];
  started = [];
  for_network = [];
  network_open = true;
  for_units = [];
  units_open = true;
  for_rmc = [];
  rmc_open = true;
  exiting = false;
}

abbrev alerted : Alerter ℕ ℕ ℕ ℕ
alerted = record idle {
  known_forkers = (1, forked) ∷ [];
  known_alerts = (1002, record { unchecked = received }) ∷ [];
  known_rmcs = ((2, 1), 1002) ∷ [];
  started = 1002 ∷ [];
  for_units = forker forked ∷ [];
}

finds :
    (who_is_forking keys 0 forked ≡ some 1)
    × (who_is_forking keys 1 forked ≡ none)
    × (who_is_forking keys 0 (unit_of 5 7, unit_of 5 7) ≡ none)
unfolding who_is_forking same_unit ℕ_discrete hash_of
finds = (refl, refl, refl)

commits :
    (correct_commitment keys 1 alert.legit_units ≡ true)
    × (correct_commitment keys 1 (unit_of 5 7 ∷ unit_of 5 8 ∷ []) ≡ false)
    × (correct_commitment keys 2 alert.legit_units ≡ false)
unfolding correct_commitment hash_of
commits = (refl, refl, refl)

reports : on_message idle keys (fork_alert received) ≡ alerted
unfolding on_message same_unit ℕ_discrete AlertId-discrete HashMap.get hash_of alert_hash
reports = refl

confirms :
    (alert_confirmed alerted keys 1002).for_units ≡ forker forked ∷ units alert.legit_units ∷ []
unfolding alert_confirmed ℕ_discrete AlertId-discrete HashMap.get hash_of
confirms = refl

idle-IsProven : IsProven keys idle
unfolding HashMap.get
idle-IsProven = record { proven = λ node_id proof found. cc }

who_is_forking_iff_example : (who_is_forking keys 0 forked ≡ some 1) ↔ IsFork keys 0 1 forked
who_is_forking_iff_example = who_is_forking_iff keys 0 forked 1

correct_commitment_iff_example :
    (correct_commitment keys 1 alert.legit_units ≡ true) ↔ IsCommitment keys 1 [] alert.legit_units
correct_commitment_iff_example = correct_commitment_iff keys 1 alert.legit_units

on_message-Reports_example : Reports keys idle (on_message idle keys (fork_alert received))
on_message-Reports_example = on_message-Reports keys idle (fork_alert received)

on_message-IsProven_example : IsProven keys (on_message idle keys (fork_alert received))
on_message-IsProven_example = on_message-IsProven keys idle (fork_alert received) idle-IsProven
