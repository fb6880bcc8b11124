-- ===== src/Reset/Follow.antt =====
-- redfish_ctl/compute/cmd_power_state.py: what reboot does, and after what.
use mathlib.Core.Path.{subst}
use redfish_ctl.Common.{
  ℕ, ◌*◌, is_some, String, ◌≡◌, ◌⊎◌, inl, inr, refl, sym, ap, ◌∙◌, true, false, List, arith,
  Bool-cases, Option-cases,
}
use redfish_ctl.Common.Dict.{Dict}
use redfish_ctl.Common.Effect.{Result, ok, raised, Exec, lift, bind-state, ◌>>=◌}
use redfish_ctl.Json.{Json, truthy, get, mapping}
use redfish_ctl.Policy.{Destructiveness}
use redfish_ctl.Http.{Exn, Transport, CommandResult}
use redfish_ctl.Action.Gate.{Options}
use redfish_ctl.Action.Report.{ActionResult}
use redfish_ctl.Action.Invoke.{invoke_action}
use redfish_ctl.Action.Invoke.Guard.{permitted, Fired, invoke_action_guard}
use redfish_ctl.Action.Invoke.Done.{IsDone, invoke_action-IsDone}
use redfish_ctl.Reset.{
  RebootOptions, with_task, waited, fired, reset_options, reset_payload, follow, reboot,
}

permitted_wet :
    (level : Destructiveness) (o : Options) → permitted level o ≡ true → o.dry_run ≡ false
permitted_wet level o h = ground arith

fired-IsDone : (a : ActionResult) → fired a.result ≡ true → IsDone a
unfolding fired IsDone
fired-IsDone a h = elim (Option-cases a.result.error) [
  | inl fine ↦ (fine, ground arith)
  | inr (e, wrong) ↦ absurd (let k = rw wrong at h in ground arith)
]

module _ (repr : String → String) (schema : String → Dict (List String)) (T : Transport)
    (origin : String) (query : String → Exec T.State Exn Json)
    (managed_system_uri : Exec T.State Exn String) (fetch_task : Json → Exec T.State Exn Json)
    (wait : ℕ → ℕ → Exec T.State Exn CommandResult) where
  -- The one POST of a reset: not as a dry run, to the target that the system at `uri` names.
  abbrev pub Sent : RebootOptions → String → T.State → T.State → Type 0
  Sent o uri t t' =
      (o.dry_run ≡ false)
      × Fired repr schema T origin query uri "Reset" (reset_payload o) "#ComputerSystem.Reset"
          (reset_options o) t t'

  abbrev call : RebootOptions → String → Exec T.State Exn ActionResult
  call o uri =
      invoke_action repr schema T origin query uri "Reset" (reset_payload o) "#ComputerSystem.Reset"
        (reset_options o)

  abbrev rest : RebootOptions → ActionResult → Exec T.State Exn CommandResult
  rest o called =
      follow repr schema T origin query managed_system_uri fetch_task wait o called.result

  Sent-of_Fired :
      (o : RebootOptions) (uri : String) (t t' : T.State)
      → Fired repr schema T origin query uri "Reset"
          (reset_payload o)
          "#ComputerSystem.Reset"
          (reset_options o)
          t
          t'
      → Sent o uri t t'
  Sent-of_Fired o uri t t' f =
      let (v, resource, at, doc, (actions, full, target, found, chosen, may, sent)) = f in
      (permitted_wet _ (reset_options o) may, f)

  -- From the state after the POST: at most one poll of a task, then at most one wait, if it is asked for.
  abbrev pub Followed : RebootOptions → T.State → T.State → Type 0
  Followed o t' s' =
      (u : T.State) × ((u ≡ t') ⊎ ((id : Json) × (u ≡ (fetch_task id t').1)))
      × ((s' ≡ u)
          ⊎ ((o.do_wait ≡ true) × (s' ≡ (wait (o.sleep_time * o.max_retry) o.sleep_time u).1)))

  -- What is returned without a POST says that nothing was done.
  abbrev pub NotFired : Result Exn CommandResult → Type 0
  NotFired (ok r) = (is_some r.error ≡ true) ⊎ (truthy (get (mapping r.data_of) "dry_run") ≡ true)
  NotFired (raised e) = Unit

  waited-Followed :
      (o : RebootOptions) (r : CommandResult) (d : Dict Json) (u : T.State)
      → ((waited repr schema T origin query managed_system_uri fetch_task wait o r d u).1 ≡ u)
        ⊎ ((o.do_wait ≡ true)
            × ((waited repr schema T origin query managed_system_uri fetch_task wait o r d u).1
                ≡ (wait (o.sleep_time * o.max_retry) o.sleep_time u).1))
  unfolding waited
  waited-Followed o r d u = elim (Bool-cases o.do_wait) [
    | inl asked ↦ inr (
      asked,
      rw asked (bind-state (wait (o.sleep_time * o.max_retry) o.sleep_time) _ u (λ a t. refl)),
    )
    | inr unasked ↦ inl (rw unasked refl)
  ]

  after_task-Followed :
      (o : RebootOptions) (r : CommandResult) (p : Result Exn (Dict Json) × T.State)
      → let s' =
          ((lift p.0 >>= waited repr schema T origin query managed_system_uri fetch_task wait o r)
            p.1).1 in
        (s' ≡ p.1)
        ⊎ ((o.do_wait ≡ true) × (s' ≡ (wait (o.sleep_time * o.max_retry) o.sleep_time p.1).1))
  after_task-Followed o r (ok d, u) = waited-Followed o r d u
  after_task-Followed o r (raised e, u) = inl refl

  with_task-Followed :
      (d : Dict Json) (t : T.State)
      → let u = (with_task repr schema T origin query managed_system_uri fetch_task wait d t).1 in
        (u ≡ t) ⊎ ((id : Json) × (u ≡ (fetch_task id t).1))
  unfolding with_task
  with_task-Followed d t = elim (Bool-cases (truthy (get d "task_id"))) [
    | inl named ↦
        inr
          (get d "task_id", rw named (bind-state (fetch_task (get d "task_id")) _ t (λ a u. refl)))
    | inr unnamed ↦ inl (rw unnamed refl)
  ]

  follow-Followed :
      (o : RebootOptions) (a : ActionResult) (t' : T.State)
      → fired a.result ≡ true
      → Followed o t' (rest o a t').1
  unfolding follow
  follow-Followed o a t' yes_fired = rw yes_fired (
    (with_task repr schema T origin query managed_system_uri fetch_task wait
        (mapping a.result.data_of) t').1,
    with_task-Followed (mapping a.result.data_of) t',
    after_task-Followed o a.result (
        with_task repr schema T origin query managed_system_uri fetch_task wait
          (mapping a.result.data_of) t'),
  )

  -- What a run has done from the state `t` in which it knows the system's URI.
  abbrev pub Outcome :
      RebootOptions → String → T.State → Result Exn CommandResult × T.State → Type 0
  Outcome o uri t p =
      ((p.1 ≡ (query uri t).1) × NotFired p.0)
      ⊎ ((t' : T.State) × Sent o uri t t' × Followed o t' p.1)

  fired-NotFired : (r : CommandResult) → fired r ≡ false → NotFired (ok r)
  unfolding fired
  fired-NotFired r h = elim (Bool-cases (is_some r.error)) [
    | inl wrong ↦ inl wrong
    | inr fine ↦ inr (ground arith)
  ]

  unfired_rest :
      (o : RebootOptions) (a : ActionResult) (t' : T.State)
      → fired a.result ≡ false
      → rest o a t' ≡ (ok a.result, t')
  unfolding follow
  unfired_rest o a t' h = rw h refl

  on_call :
      (o : RebootOptions) (uri : String) (t : T.State) (p : Result Exn ActionResult × T.State)
      → call o uri t ≡ p
      → Outcome o uri t ((lift p.0 >>= rest o) p.1)
  on_call o uri t (raised e, t') h =
      elim (invoke_action_guard repr schema T origin query uri "Reset" (reset_payload o)
        "#ComputerSystem.Reset" (reset_options o) t) [
          | inl same ↦ inl (sym (ap (λ p. p.1) h) ∙ same, tt)
          | inr f ↦ inr (
            (call o uri t).1,
            Sent-of_Fired o uri t (call o uri t).1 f,
            ((call o uri t).1, inl refl, inl (sym (ap (λ p. p.1) h))),
          )
        ]
  on_call o uri t (ok a, t') h = elim (Bool-cases (fired a.result)) [
    | inl done ↦ inr (
      t',
      Sent-of_Fired o uri t t' (
          invoke_action-IsDone repr schema T origin query uri "Reset" (reset_payload o)
            "#ComputerSystem.Reset" (reset_options o) t a t' h (fired-IsDone a done)),
      follow-Followed o a t' done,
    )
    | inr unfired ↦
        subst (Outcome o uri t) (sym (unfired_rest o a t' unfired))
          (elim (invoke_action_guard repr schema T origin query uri "Reset" (reset_payload o)
            "#ComputerSystem.Reset" (reset_options o) t) [
              | inl same ↦ inl (sym (ap (λ p. p.1) h) ∙ same, fired-NotFired a.result unfired)
              | inr f ↦ inr (
                (call o uri t).1,
                Sent-of_Fired o uri t (call o uri t).1 f,
                ((call o uri t).1, inl refl, inl (sym (ap (λ p. p.1) h))),
              )
            ])
  ]

  -- What a run does from what the search for the system came to.
  abbrev pub RunOf :
      RebootOptions → Result Exn String × T.State → Result Exn CommandResult × T.State → Type 0
  RunOf o (raised e, t) p = p ≡ (raised e, t)
  RunOf o (ok uri, t) p = Outcome o uri t p

  found-RunOf :
      (o : RebootOptions) (found : Result Exn String × T.State)
      → RunOf o found ((lift found.0 >>= λ uri. call o uri >>= rest o) found.1)
  found-RunOf o (raised e, t) = refl
  found-RunOf o (ok uri, t) = on_call o uri t (call o uri t) refl

  -- Where the URI of the system is not to be had, reboot raises. Else it has left the state that the read
  -- of the system left, and what it returns has an error or is marked as a dry run; or it is no dry run,
  -- and has sent exactly one POST, to the target that this system names for its reset, after which it has
  -- polled one task at most, and waited once at most, with the timeout given and only if asked to.
  pub reboot_sends_first :
      (o : RebootOptions) (s : T.State)
      → RunOf o
          (managed_system_uri s)
          (reboot repr schema T origin query managed_system_uri fetch_task wait o s)
  unfolding reboot
  reboot_sends_first o s = found-RunOf o (managed_system_uri s)
