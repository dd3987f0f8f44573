-- ===== src/Member/Pending.antt =====
-- src/member.rs: the tasks of requests that are not resolved.
use aleph_bft.Prelude.{
  ◌≡◌, refl, sym, ap, ◌∙◌, ◌⊎◌, inl, inr, true, Option, none, some, List, [], ◌∷◌, Eq, arith,
  if◌then◌else◌, ltb, leb, ok, Bool-cases, Option-cases, ok_injective, ◌≢◌, subst,
}
use aleph_bft.Prelude.HashSet
use aleph_bft.Nodes.{NodeIndex}
use aleph_bft.Units.{UnitCoord}
use aleph_bft.Units.Store.{coord_eq}
use aleph_bft.Alerts.Alerter.{Recipient}
use aleph_bft.Runway.Message.{UnitMessage, Request, Response, RunwayNotificationOut}
use aleph_bft.Member.{
  Task, coord_request, parents_request, unit_multicast, newest_request, ScheduledTask, Member,
  Instant, Reading, new_task, earliest, push_task, send_unit_message, send_notification_to_runway,
  on_create, message_of, task_details, perform, trigger_tasks, on_request_coord, on_request_parents,
  on_request_newest, on_unit_message_from_units, on_resolved,
}
use aleph_bft.Member.Run.{Event, from_runway, resolved, from_network, tick, exit, handle}

module _ {H D S : Type 0} where
  -- Some task of the list is such.
  abbrev pub Queued : (Task H D S → Type 0) → List (ScheduledTask H D S) → Type 0
  Queued P [] = ⊥
  Queued P (t ∷ ts) = P t.task ⊎ Queued P ts

  -- What `earliest` takes, and what it leaves.
  abbrev pub Kept :
      (Task H D S → Type 0) → Option (ScheduledTask H D S × List (ScheduledTask H D S)) → Type 0
  Kept P none = ⊥
  Kept P (some (t, rest)) = P t.task ⊎ Queued P rest

  pub earliest-Kept :
      (P : Task H D S → Type 0) (q : List (ScheduledTask H D S)) → Queued P q → Kept P (earliest q)
  unfolding earliest
  earliest-Kept P [] there = absurd there
  earliest-Kept P (u ∷ us) there = pick (earliest us) (earliest-Kept P us) there
    where
      pick :
          (o : Option (ScheduledTask H D S × List (ScheduledTask H D S)))
          → (Queued P us → Kept P o)
          → P u.task ⊎ Queued P us
          → Kept P (elim o [
            | none ↦ some (u, [])
            | some (v, rest) ↦
                if leb u.scheduled_time v.scheduled_time then some (u, us) else some (v, u ∷ rest)
          ])
      pick none again (inl here) = inl here
      pick none again (inr later) = absurd (again later)
      pick (some (v, rest)) again at = elim (Bool-cases (leb u.scheduled_time v.scheduled_time)) [
        | inl first ↦ rw first at
        | inr second ↦ rw second (elim at [
          | inl here ↦ inr (inl here)
          | inr later ↦ elim (again later) [ inl it ↦ inl it | inr on ↦ inr (inr on) ]
        ])
      ]

  abbrev pub AsksParents : H → Task H D S → Type 0
  AsksParents q t = (r : Recipient) × (t ≡ parents_request q r)

module _ {H D S : Type 0} ⦃e : Eq H⦄ where
  -- Each request that is not resolved has a task.
  pub record IsPending (s : Member H D S) : Type 0 where
    pub coords :
        (c : UnitCoord)
        → HashSet.contains c s.not_resolved_coords ≡ true
        → Queued (λ t. t ≡ coord_request c) s.task_queue
    pub parents :
        (q : H)
        → HashSet.contains q s.not_resolved_parents ≡ true
        → Queued (AsksParents q) s.task_queue

  -- A task that is active stays, whatever its turn.
  perform-Queued :
      (s : Member H D S) (t : ScheduledTask H D S) (rest : List (ScheduledTask H D S))
      (peer : NodeIndex) (P : Task H D S → Type 0)
      → (P t.task → message_of s t.task ≢ none)
      → P t.task ⊎ Queued P rest
      → Queued P (perform s t rest peer).task_queue
  unfolding perform task_details send_unit_message
  perform-Queued s t rest peer P active there = elim (Option-cases (message_of s t.task)) [
    | inl done ↦
        simp (perform, task_details, done)
          (elim there [ inl here ↦ absurd (active here done) | inr on ↦ on ])
    | inr ((m, preferred), again) ↦ simp (perform, task_details, again) there
  ]

  perform-kept :
      (s : Member H D S) (t : ScheduledTask H D S) (rest : List (ScheduledTask H D S))
      (peer : NodeIndex)
      → ((perform s t rest peer).not_resolved_coords ≡ s.not_resolved_coords)
        × ((perform s t rest peer).not_resolved_parents ≡ s.not_resolved_parents)
  unfolding perform task_details send_unit_message
  perform-kept s t rest peer = elim (Option-cases (message_of s t.task)) [
    | inl done ↦ simp (perform, task_details, done) (refl, refl)
    | inr ((m, preferred), again) ↦ simp (perform, task_details, again) (refl, refl)
  ]

  coord-active :
      (s : Member H D S) (c : UnitCoord) (t : Task H D S)
      → HashSet.contains c s.not_resolved_coords ≡ true
      → t ≡ coord_request c
      → message_of s t ≢ none
  unfolding message_of
  coord-active s c t there is_c = rw (is_c, there) (λ no. cc)

  parents-active :
      (s : Member H D S) (q : H) (t : Task H D S)
      → HashSet.contains q s.not_resolved_parents ≡ true
      → AsksParents q t
      → message_of s t ≢ none
  unfolding message_of
  parents-active s q t there (r, is_q) = rw (is_q, there) (λ no. cc)

  perform-IsPending :
      (s : Member H D S) (t : ScheduledTask H D S) (rest : List (ScheduledTask H D S))
      (peer : NodeIndex)
      → earliest s.task_queue ≡ some (t, rest)
      → IsPending s
      → IsPending (perform s t rest peer)
  perform-IsPending s t rest peer taken v =
      let (same_coords, same_parents) = perform-kept s t rest peer in
      record {
        coords = λ c there.
            let open_c = ap (HashSet.contains c) (sym same_coords) ∙ there in
            perform-Queued s t rest peer (λ t'. t' ≡ coord_request c)
              (coord-active s c t.task open_c)
              (subst (Kept (λ t'. t' ≡ coord_request c)) taken
                (earliest-Kept _ _ (v.coords c open_c)));
        parents = λ q there.
            let open_q = ap (HashSet.contains q) (sym same_parents) ∙ there in
            perform-Queued s t rest peer (AsksParents q) (parents-active s q t.task open_q)
              (subst (Kept (AsksParents q)) taken (earliest-Kept _ _ (v.parents q open_q)));
      }

  trigger_tasks-IsPending :
      (s s' : Member H D S) (readings : List Reading)
      → trigger_tasks s readings ≡ ok s'
      → IsPending s
      → IsPending s'
  unfolding trigger_tasks
  trigger_tasks-IsPending s s' [] done v = elim (Option-cases (earliest s.task_queue)) [
    | inl empty ↦ subst IsPending (ok_injective (ground arith)) v
    | inr (_, some_left) ↦ absurd (ground arith)
  ]
  trigger_tasks-IsPending s s' (r ∷ readings) done v = elim (Option-cases (earliest s.task_queue)) [
    | inl empty ↦ subst IsPending (ok_injective (ground arith)) v
    | inr ((t, rest), taken) ↦ elim (Bool-cases (ltb r.now t.scheduled_time)) [
      | inl later ↦ subst IsPending (ok_injective (ground arith)) v
      | inr due ↦
          trigger_tasks-IsPending (perform s t rest r.peer) s' readings (ground arith)
            (perform-IsPending s t rest r.peer taken v)
    ]
  ]

  asked_coord :
      (s : Member H D S) (c : UnitCoord) (now : Instant)
      → IsPending s
      → IsPending (
          push_task
            (record s { not_resolved_coords = HashSet.insert c s.not_resolved_coords })
            (coord_request c)
            now)
  unfolding push_task new_task
  asked_coord s c now v = record {
    coords = λ c' there. elim (coord_eq.eq? c c') [
      | yes same ↦ inl (ap coord_request same)
      | no other ↦
          inr (v.coords c' (ground (arith, HashSet.contains-insert c c' s.not_resolved_coords)))
    ];
    parents = λ q there. inr (v.parents q there);
  }

  asked_parents :
      (s : Member H D S) (u_hash : H) (recipient : Recipient) (now : Instant)
      → IsPending s
      → IsPending (
          push_task
            (record s { not_resolved_parents = HashSet.insert u_hash s.not_resolved_parents })
            (parents_request u_hash recipient)
            now)
  unfolding push_task new_task
  asked_parents s u_hash recipient now v = record {
    coords = λ c there. inr (v.coords c there);
    parents = λ q there. elim (e.eq? u_hash q) [
      | yes same ↦ inl (recipient, ap (λ x. parents_request x recipient) same)
      | no other ↦
          inr
            (v.parents q (ground (arith, HashSet.contains-insert u_hash q s.not_resolved_parents)))
    ];
  }

  pushed :
      (s : Member H D S) (task : Task H D S) (now : Instant)
      → IsPending s
      → IsPending (push_task s task now)
  unfolding push_task
  pushed s task now v = record {
    coords = λ c there. inr (v.coords c there);
    parents = λ q there. inr (v.parents q there);
  }

  sent :
      (s : Member H D S) (m : UnitMessage H D S) (recipient : Recipient)
      → IsPending s
      → IsPending (send_unit_message s m recipient)
  unfolding send_unit_message
  sent s m recipient v = record { coords = v.coords; parents = v.parents }

  on_request_coord-IsPending :
      (s s' : Member H D S) (c : UnitCoord) (now : Instant) (readings : List Reading)
      → on_request_coord s c now readings ≡ ok s'
      → IsPending s
      → IsPending s'
  unfolding on_request_coord
  on_request_coord-IsPending s s' c now readings done v =
      elim (Bool-cases (HashSet.contains c s.not_resolved_coords)) [
        | inl asked ↦ subst IsPending (ok_injective (ground arith)) v
        | inr new ↦ trigger_tasks-IsPending _ s' readings (ground arith) (asked_coord s c now v)
      ]

  on_request_parents-IsPending :
      (s s' : Member H D S) (u_hash : H) (recipient : Recipient) (now : Instant)
      (readings : List Reading)
      → on_request_parents s u_hash recipient now readings ≡ ok s'
      → IsPending s
      → IsPending s'
  unfolding on_request_parents
  on_request_parents-IsPending s s' u_hash recipient now readings done v =
      elim (Bool-cases (HashSet.contains u_hash s.not_resolved_parents)) [
        | inl asked ↦ subst IsPending (ok_injective (ground arith)) v
        | inr new ↦
            trigger_tasks-IsPending _ s' readings (ground arith)
              (asked_parents s u_hash recipient now v)
      ]

  on_resolved-IsPending :
      (s : Member H D S) (request : Request H) → IsPending s → IsPending (on_resolved s request)
  unfolding on_resolved
  on_resolved-IsPending s (Request.coord c) v = record {
    coords = λ c' there.
        v.coords c' (ground (arith, HashSet.contains-remove c c' s.not_resolved_coords));
    parents = v.parents;
  }
  on_resolved-IsPending s (Request.parents u_hash) v = record {
    coords = v.coords;
    parents = λ q there.
        v.parents q (ground (arith, HashSet.contains-remove u_hash q s.not_resolved_parents));
  }
  on_resolved-IsPending s (Request.newest_unit salt) v = record {
    coords = v.coords;
    parents = v.parents;
  }

  from_runway-IsPending :
      (s s' : Member H D S) (m : RunwayNotificationOut H D S) (now : Instant)
      (readings : List Reading)
      → on_unit_message_from_units s m now readings ≡ ok s'
      → IsPending s
      → IsPending s'
  unfolding on_unit_message_from_units on_create on_request_newest
  from_runway-IsPending s s' (RunwayNotificationOut.new_unit u) now readings done v =
      subst IsPending (ok_injective done) (pushed s (unit_multicast u) now v)
  from_runway-IsPending s s' (RunwayNotificationOut.request (Request.coord c) r) now readings done
        v =
      on_request_coord-IsPending s s' c now readings done v
  from_runway-IsPending s s' (RunwayNotificationOut.request (Request.parents q) r) now readings done
        v =
      on_request_parents-IsPending s s' q r now readings done v
  from_runway-IsPending s s' (RunwayNotificationOut.request (Request.newest_unit z) r) now readings
        done v =
      trigger_tasks-IsPending _ s' readings done (pushed s (newest_request z) now v)
  from_runway-IsPending s s' (RunwayNotificationOut.response (Response.coord u) i) now readings done
        v =
      subst IsPending (ok_injective done) (sent s _ _ v)
  from_runway-IsPending s s' (RunwayNotificationOut.response (Response.parents q ps) i) now readings
        done v =
      subst IsPending (ok_injective done) (sent s _ _ v)
  from_runway-IsPending s s' (RunwayNotificationOut.response (Response.newest_unit r) i) now
        readings done v =
      subst IsPending (ok_injective done) (sent s _ _ v)

  -- An event that is handled to its end keeps it so that each coordinate and each list of parents
  -- that was asked for, and not resolved since, has a task in the queue.
  pub handle-IsPending :
      (s s' : Member H D S) (event : Event H D S)
      → handle s event ≡ ok s'
      → IsPending s
      → IsPending s'
  unfolding handle send_notification_to_runway
  handle-IsPending s s' (from_runway m now readings) done v =
      from_runway-IsPending s s' m now readings done v
  handle-IsPending s s' (resolved request) done v =
      subst IsPending (ok_injective done) (on_resolved-IsPending s request v)
  handle-IsPending s s' (from_network m) done v =
      subst IsPending (ok_injective done) (record { coords = v.coords; parents = v.parents })
  handle-IsPending s s' (tick readings) done v = trigger_tasks-IsPending s s' readings done v
  handle-IsPending s s' exit done v =
      subst IsPending (ok_injective done) (record { coords = v.coords; parents = v.parents })
