-- ===== src/Member/Turns.antt =====
-- src/member.rs: the turns of `trigger_tasks`.
use aleph_bft.Prelude.{
  ℕ, suc, ◌+◌, ◌-◌, ◌≤◌, ◌<◌, ◌≡◌, refl, inl, inr, Option, none, some, List, [], ◌∷◌, All, Eq,
  arith, if◌then◌else◌, ltb, leb, ok, Bool-cases, Option-cases, subst, length,
}
use aleph_bft.Nodes.{NodeIndex}
use aleph_bft.Alerts.Alerter.{Recipient, everyone, node}
use aleph_bft.Member.{
  ScheduledTask, Member, Reading, Instant, earliest, send_unit_message, recipient_and_delay,
  message_of, task_details, perform, trigger_tasks,
}

module _ {H D S : Type 0} where
  -- The turns that the tasks can take until an instant, if each takes a unit of time.
  abbrev pub turns_until : Instant → List (ScheduledTask H D S) → ℕ
  turns_until limit [] = 0
  turns_until limit (t ∷ ts) = suc limit - t.scheduled_time + turns_until limit ts

  abbrev pub AllAfter : Instant → List (ScheduledTask H D S) → Type 0
  AllAfter n q = All (λ t. n < t.scheduled_time) q

  abbrev Least :
      Instant
      → List (ScheduledTask H D S)
      → Option (ScheduledTask H D S × List (ScheduledTask H D S))
      → Type 0
  Least limit q none = q ≡ []
  Least limit q (some (t, rest)) =
      (turns_until limit q ≡ suc limit - t.scheduled_time + turns_until limit rest)
      × ((n : Instant) → n < t.scheduled_time → AllAfter n q)

  earliest-Least : (limit : Instant) (q : List (ScheduledTask H D S)) → Least limit q (earliest q)
  unfolding earliest
  earliest-Least limit [] = refl
  earliest-Least limit (u ∷ us) = pick (earliest us) (earliest-Least limit us)
    where
      pick :
          (o : Option (ScheduledTask H D S × List (ScheduledTask H D S)))
          → Least limit us o
          → Least limit (u ∷ us) (elim o [
            | none ↦ some (u, [])
            | some (v, rest) ↦
                if leb u.scheduled_time v.scheduled_time then some (u, us) else some (v, u ∷ rest)
          ])
      pick none empty = (rw empty refl, λ n h. (h, rw empty tt))
      pick (some (v, rest)) (count, later) =
          elim (Bool-cases (leb u.scheduled_time v.scheduled_time)) [
            | inl first ↦ rw first (refl, λ n h. (h, later n (ground arith)))
            | inr second ↦ rw second (omega (arith, count), λ n h. (ground arith, later n h))
          ]

module _ {H D S : Type 0} ⦃e : Eq H⦄ where
  -- Each delay of the configuration is at least a unit of time.
  abbrev pub Delayed : Member H D S → Type 0
  Delayed s = (0 < s.requests_interval) × ((k : ℕ) → 0 < s.unit_broadcast_delay k)

  delay_pos :
      (s : Member H D S) (r : Recipient) (counter : ℕ) (peer : NodeIndex)
      → Delayed s
      → 0 < (recipient_and_delay s r counter peer).1
  unfolding recipient_and_delay
  delay_pos s everyone counter peer slow = slow.1 counter
  delay_pos s (node i) counter peer slow = slow.0

  perform-turns :
      (s : Member H D S) (t : ScheduledTask H D S) (rest : List (ScheduledTask H D S))
      (peer : NodeIndex) (limit : Instant)
      → Delayed s
      → t.scheduled_time ≤ limit
      → Delayed (perform s t rest peer)
        × (turns_until limit (perform s t rest peer).task_queue
            < suc limit - t.scheduled_time + turns_until limit rest)
  unfolding perform task_details send_unit_message
  perform-turns s t rest peer limit slow due = elim (Option-cases (message_of s t.task)) [
    | inl done ↦ simp (perform, task_details, done) (slow, omega arith)
    | inr ((m, preferred), again) ↦
        let positive = delay_pos s preferred t.counter peer slow in
        simp (perform, task_details, again) (slow, omega arith)
  ]

  -- With delays of at least a unit of time, a clock that stays between two instants, and a reading
  -- for each turn that the tasks can take until the later instant, the loop ends. Every task that is
  -- left is scheduled after the earlier instant: what was due then had its turn.
  pub trigger_tasks_returns :
      (s : Member H D S) (readings : List Reading) (since limit : Instant)
      → Delayed s
      → All (λ r. (since ≤ r.now) × (r.now ≤ limit)) readings
      → turns_until limit s.task_queue < length readings
      → (s' : Member H D S) × (trigger_tasks s readings ≡ ok s') × AllAfter since s'.task_queue
  unfolding trigger_tasks
  trigger_tasks_returns s [] since limit slow clock enough = absurd (omega arith)
  trigger_tasks_returns s (r ∷ readings) since limit slow (now, clock) enough =
      elim (Option-cases (earliest s.task_queue)) [
        | inl empty ↦
            let none_left =
              subst (Least limit s.task_queue) empty (earliest-Least limit s.task_queue) in
            (s, ground arith, rw none_left tt)
        | inr ((t, rest), taken) ↦
            let (count, later) =
              subst (Least limit s.task_queue) taken (earliest-Least limit s.task_queue) in
            elim (Bool-cases (ltb r.now t.scheduled_time)) [
              | inl early ↦ (s, ground arith, later since (ground arith))
              | inr due ↦
                  let (slow', fewer) = perform-turns s t rest r.peer limit slow (ground arith) in
                  let (s', done, after) =
                    trigger_tasks_returns (perform s t rest r.peer) readings since limit slow' clock
                      (omega (arith, count, fewer)) in
                  (s', ground arith, after)
            ]
      ]
