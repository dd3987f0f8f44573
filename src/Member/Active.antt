-- ===== src/Member/Active.antt =====
-- src/member.rs: what `trigger_tasks` sends.
use aleph_bft.Prelude.{
  ℕ, leb, some_injective, ◌≡◌, refl, sym, ap, ◌∙◌, inl, inr, Bool, true, false, Option, none, some,
  List, [], ◌∷◌, ◌++◌, All, All-append, Eq, arith, ltb, ok, Bool-cases, Option-cases, subst,
  ok_injective,
}
use mathlib.Core.List.{append_assoc, append-nil}
use aleph_bft.Prelude.HashSet
use aleph_bft.Prelude.HashSet.{HashSet}
use aleph_bft.Nodes.{NodeIndex}
use aleph_bft.Units.{UnitCoord}
use aleph_bft.Units.Store.{coord_eq}
use aleph_bft.Alerts.Alerter.{Recipient, everyone, node}
use aleph_bft.Runway.Message.{
  UnitMessage, request_coord, response_coord, request_parents, response_parents, request_newest,
  response_newest,
}
use aleph_bft.Member.{
  Task, coord_request, parents_request, unit_multicast, newest_request, ScheduledTask, Member,
  Reading, earliest, send_unit_message, recipient_and_delay, message_of, task_details, perform,
  trigger_tasks,
}
use aleph_bft.Member.Pending.{Queued, AsksParents}

-- What decides whether a task is active.
pub record View (H : Type 0) : Type 0 where
  pub node_ix : NodeIndex
  pub coords : HashSet UnitCoord
  pub parents : HashSet H
  pub newest_resolved : Bool

module _ {H D S : Type 0} ⦃e : Eq H⦄ where
  abbrev pub view : Member H D S → View H
  view s = record {
    node_ix = s.node_ix;
    coords = s.not_resolved_coords;
    parents = s.not_resolved_parents;
    newest_resolved = s.newest_unit_resolved;
  }

  -- A unit, to everyone, or a request in this node's name that is not resolved; each of a task of
  -- the queue `q`.
  abbrev pub IsActive : View H → List (ScheduledTask H D S) → UnitMessage H D S × Recipient → Type 0
  IsActive v q (UnitMessage.new_unit u, r) = Queued (λ t. t ≡ unit_multicast u) q × (r ≡ everyone)
  IsActive v q (request_coord i c, r) =
      Queued (λ t. t ≡ coord_request c) q × (i ≡ v.node_ix) × (HashSet.contains c v.coords ≡ true)
  IsActive v q (request_parents i p_hash, r) =
      Queued (AsksParents p_hash) q × (i ≡ v.node_ix) × (HashSet.contains p_hash v.parents ≡ true)
  IsActive v q (request_newest i salt, r) =
      Queued (λ t. t ≡ newest_request salt) q
      × (r ≡ everyone)
      × (i ≡ v.node_ix)
      × (v.newest_resolved ≡ false)
  IsActive v q (response_coord u, r) = ⊥
  IsActive v q (response_parents p_hash us, r) = ⊥
  IsActive v q (response_newest response, r) = ⊥

  IsActiveTask :
      View H → List (ScheduledTask H D S) → Option (UnitMessage H D S × Recipient) → Type 0
  IsActiveTask v q none = Unit
  IsActiveTask v q (some (m, preferred)) =
      (r : Recipient) → (preferred ≡ everyone → r ≡ everyone) → IsActive v q (m, r)

  message_of-IsActive :
      (s : Member H D S) (q : List (ScheduledTask H D S)) (task : Task H D S)
      → ((P : Task H D S → Type 0) → P task → Queued P q)
      → IsActiveTask (view s) q (message_of s task)
  unfolding message_of IsActiveTask
  message_of-IsActive s q (coord_request c) there =
      elim (Bool-cases (HashSet.contains c s.not_resolved_coords)) [
        | inl asked ↦ rw asked (λ r wide. (there (λ t. t ≡ coord_request c) refl, refl, asked))
        | inr done ↦ rw done tt
      ]
  message_of-IsActive s q (parents_request p_hash recipient) there =
      elim (Bool-cases (HashSet.contains p_hash s.not_resolved_parents)) [
        | inl asked ↦
            rw asked (λ r wide. (there (AsksParents p_hash) (recipient, refl), refl, asked))
        | inr done ↦ rw done tt
      ]
  message_of-IsActive s q (unit_multicast u) there =
      λ r wide. (there (λ t. t ≡ unit_multicast u) refl, wide refl)
  message_of-IsActive s q (newest_request salt) there = elim (Bool-cases s.newest_unit_resolved) [
    | inl done ↦ simp done tt
    | inr asked ↦
        simp asked (λ r wide. (there (λ t. t ≡ newest_request salt) refl, wide refl, refl, refl))
  ]

  -- Messages that went out after the state `s`, all of them active then, and of tasks of `q`.
  abbrev SentOf : List (ScheduledTask H D S) → Member H D S → Member H D S → Type 0
  SentOf q s s' =
      (new : List (UnitMessage H D S × Recipient)) × (s'.unit_messages_for_network.sent
        ≡ s.unit_messages_for_network.sent ++ new)
      × All (IsActive (view s) q) new

  -- Of tasks that were in the queue of `s`.
  abbrev pub SentSince : Member H D S → Member H D S → Type 0
  SentSince s s' = SentOf s.task_queue s s'

  abbrev Within : List (ScheduledTask H D S) → List (ScheduledTask H D S) → Type 1
  Within ts q = (P : Task H D S → Type 0) → Queued P ts → Queued P q

  nothing_sent : (q : List (ScheduledTask H D S)) (s : Member H D S) → SentOf q s s
  nothing_sent q s = ([], sym (append-nil s.unit_messages_for_network.sent), tt)

  ended :
      (q : List (ScheduledTask H D S)) (s s' : Member H D S)
      → s ≡ s'
      → (view s' ≡ view s) × SentOf q s s'
  ended q s s' same = (ap view (sym same), subst (SentOf q s) same (nothing_sent q s))

  earliest-Within :
      (q : List (ScheduledTask H D S)) (t : ScheduledTask H D S) (rest : List (ScheduledTask H D S))
      → earliest q ≡ some (t, rest)
      → Within (t ∷ rest) q
  unfolding earliest
  earliest-Within [] t rest taken P there = cc
  earliest-Within (u ∷ us) t rest taken P there = elim (Option-cases (earliest us)) [
    | inl none_left ↦
        let is_it : ◌≡◌ {A = ScheduledTask H D S × List (ScheduledTask H D S)} (u, []) (t, rest) =
          some_injective (ground arith) in
        let back = subst (λ x. Queued P (x.0 ∷ x.1)) (sym is_it) there in
        elim back [ inl here ↦ inl here | inr nowhere ↦ absurd nowhere ]
    | inr ((v, r), found) ↦ elim (Bool-cases (leb u.scheduled_time v.scheduled_time)) [
      | inl first ↦
          let is_it : ◌≡◌ {A = ScheduledTask H D S × List (ScheduledTask H D S)} (u, us) (t, rest) =
            some_injective (ground arith) in
          subst (λ x. Queued P (x.0 ∷ x.1)) (sym is_it) there
      | inr second ↦
          let is_it : ◌≡◌ {A = ScheduledTask H D S × List (ScheduledTask H D S)} (v, u ∷ r)
              (t, rest) =
            some_injective (ground arith) in
          let back = subst (λ x. Queued P (x.0 ∷ x.1)) (sym is_it) there in
          elim back [
            | inl it ↦ inr (earliest-Within us v r found P (inl it))
            | inr (inl here) ↦ inl here
            | inr (inr on) ↦ inr (earliest-Within us v r found P (inr on))
          ]
    ]
  ]

  wide_recipient :
      (s : Member H D S) (preferred : Recipient) (counter : ℕ) (peer : NodeIndex)
      → preferred ≡ everyone
      → (recipient_and_delay s preferred counter peer).0 ≡ everyone
  unfolding recipient_and_delay
  wide_recipient s everyone counter peer wide = refl
  wide_recipient s (node i) counter peer wide = cc

  perform-SentOf :
      (s : Member H D S) (t : ScheduledTask H D S) (rest q : List (ScheduledTask H D S))
      (peer : NodeIndex)
      → Within (t ∷ rest) q
      → (view (perform s t rest peer) ≡ view s)
        × SentOf q s (perform s t rest peer)
        × Within (perform s t rest peer).task_queue q
  unfolding perform task_details send_unit_message IsActiveTask
  perform-SentOf s t rest q peer within = elim (Option-cases (message_of s t.task)) [
    | inl done ↦
        simp (perform, task_details, done) (refl, nothing_sent q s, λ P there. within P (inr there))
    | inr ((m, preferred), again) ↦
        let active =
          subst (IsActiveTask (view s) q) again
            (message_of-IsActive s q t.task (λ P at. within P (inl at))) in
        let wide = wide_recipient s preferred t.counter peer in
        elim (Bool-cases s.unit_messages_for_network.is_open) [
          | inl listens ↦
              simp (perform, task_details, again, listens)
                (refl, (_, refl, (active _ wide, tt)), λ P there. within P there)
          | inr gone ↦
              simp (perform, task_details, again, gone)
                (refl, nothing_sent q s, λ P there. within P there)
        ]
  ]

  sent_on :
      (q : List (ScheduledTask H D S)) (s t u : Member H D S)
      → view t ≡ view s
      → SentOf q s t
      → SentOf q t u
      → SentOf q s u
  sent_on q s t u same (xs, first, at_xs) (ys, later, at_ys) = (
    xs ++ ys,
    later ∙ ap (λ l. l ++ ys) first ∙ append_assoc s.unit_messages_for_network.sent xs ys,
    All-append (IsActive (view s) q) xs ys at_xs (subst (λ v. All (IsActive v q) ys) same at_ys),
  )

  trigger_tasks-SentOf :
      (q : List (ScheduledTask H D S)) (s s' : Member H D S) (readings : List Reading)
      → Within s.task_queue q
      → trigger_tasks s readings ≡ ok s'
      → (view s' ≡ view s) × SentOf q s s'
  unfolding trigger_tasks
  trigger_tasks-SentOf q s s' [] within done = elim (Option-cases (earliest s.task_queue)) [
    | inl empty ↦ ended q s s' (ok_injective (ground arith))
    | inr (_, some_left) ↦ absurd (ground arith)
  ]
  trigger_tasks-SentOf q s s' (r ∷ readings) within done =
      elim (Option-cases (earliest s.task_queue)) [
        | inl empty ↦ ended q s s' (ok_injective (ground arith))
        | inr ((t, rest), taken) ↦ elim (Bool-cases (ltb r.now t.scheduled_time)) [
          | inl later ↦ ended q s s' (ok_injective (ground arith))
          | inr due ↦
              let (same, first, left) =
                perform-SentOf s t rest q r.peer
                  (λ P there. within P (earliest-Within s.task_queue t rest taken P there)) in
              let (kept, later) =
                trigger_tasks-SentOf q (perform s t rest r.peer) s' readings left (ground arith) in
              (kept ∙ same, sent_on q s (perform s t rest r.peer) s' same first later)
        ]
      ]

  -- If the loop ends, each message that it sent is of a task that was in the queue: a unit to be
  -- multicast, to everyone, or a request in this node's name that is not resolved, for the newest
  -- unit to everyone. Which requests are resolved does not change.
  pub trigger_tasks-SentSince :
      (s s' : Member H D S) (readings : List Reading)
      → trigger_tasks s readings ≡ ok s'
      → (view s' ≡ view s) × SentSince s s'
  trigger_tasks-SentSince s s' readings done =
      trigger_tasks-SentOf s.task_queue s s' readings (λ P there. there) done
