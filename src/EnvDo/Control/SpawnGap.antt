-- ===== src/EnvDo/Control/SpawnGap.antt =====
-- controlPoll of broker/src/env-do.ts: jobs that the runner reports as never spawned.
use mathlib.Core.Option
use gha_mcp_host.Prelude.{
  ℕ, ◌≡◌, refl, sym, ap, ◌∙◌, Bool, true, false, ◌&&◌, ◌||◌, String, List, [], ◌∷◌, Option, none,
  some, arith, if◌then◌else◌, str_eq, eq_iff, Bool-cases, inl, inr, get_or_else,
}
use gha_mcp_host.EnvSchema.{running, lost, truthy, Command, QueueRow}
use gha_mcp_host.EnvDo.{Env, find_command, update_command}
use gha_mcp_host.EnvDo.Tables.{find_command-update_self, find_command-update_ne}
use gha_mcp_host.EnvDo.Queue.{next_row, claim_next, start}
use gha_mcp_host.EnvDo.Queue.Claiming.{claimed_row, state-start}
use gha_mcp_host.EnvDo.Control.{Running, Poll, is_live, lose, report_gaps, control_poll}

-- Whether the list names the id as one that was never spawned.
unfoldable pub names_gap : String → List Running → Bool
names_gap id [] = false
names_gap id (r ∷ rs) =
    (r.has_spawn_gap && truthy r.command_id && str_eq (get_or_else r.command_id "") id)
    || names_gap id rs

lose_id :
    (now : ℕ) (id : String) (c : Command)
    → str_eq c.command_id id ≡ true
    → str_eq (lose now c).command_id id ≡ true
unfolding lose
lose_id now id c h = ground arith

lose_twice : (now : ℕ) (c : Command) → lose now (lose now c) ≡ lose now c
unfolding lose is_live
lose_twice now c = ground arith

lose_row :
    (now : ℕ) (at id : String) (cs : List Command)
    → find_command id (update_command at (lose now) cs)
      ≡ (if str_eq at id then Option.map (lose now) (find_command id cs) else find_command id cs)
lose_row now at id cs = elim (Bool-cases (str_eq at id)) [
  | inl e ↦
      let same : at ≡ id = (eq_iff at id).0 e in
      rw (e, same) (find_command-update_self id (lose now) cs (λ c h. lose_id now id c h))
  | inr e ↦ rw e (
      find_command-update_ne at id (lose now) cs (λ c h. lose_id now at c h)
        (λ p. cc ((eq_iff at id).1 (sym p), e)))
]

lose_row_twice :
    (now : ℕ) (o : Option Command)
    → Option.map (lose now) (Option.map (lose now) o) ≡ Option.map (lose now) o
lose_row_twice now none = refl
lose_row_twice now (some c) = ap some (lose_twice now c)

pub report_row :
    (now : ℕ) (id : String) (rs : List Running) (cs : List Command)
    → find_command id (report_gaps now rs cs)
      ≡ (if names_gap id rs then Option.map (lose now) (find_command id cs) else find_command id cs)
unfolding report_gaps names_gap
report_row now id [] cs = refl
report_row now id (r ∷ rs) cs =
    let at = get_or_else r.command_id "" in
    elim (Bool-cases (r.has_spawn_gap && truthy r.command_id)) [
      | inr no_gap ↦ rw (no_gap, report_row now id rs cs)
      | inl gap ↦
          rw (gap, report_row now id rs (update_command at (lose now) cs), lose_row now at id cs)
            (merged (str_eq at id) (names_gap id rs) (find_command id cs))
    ]
  where
    merged :
        (here later : Bool) (o : Option Command)
        → (if later
            then Option.map (lose now) (if here then Option.map (lose now) o else o)
            else if here
            then Option.map (lose now) o
            else o)
          ≡ (if here || later then Option.map (lose now) o else o)
    merged true true o = lose_row_twice now o
    merged true false o = refl
    merged false true o = refl
    merged false false o = refl

-- A poll turns exactly the rows that it names as never spawned, and only live ones, into lost ones; it
-- leaves every other row, hands over the queued actions and keeps none of them.
pub control_poll_rows :
    (e : Env) (body : Poll) (now gap_at later : ℕ) (id : String)
    → let (e', reply) = control_poll e body now gap_at later in
      (find_command id e'.commands ≡ (
        if names_gap id body.running
        then Option.map (lose gap_at) (find_command id e.commands)
        else find_command id e.commands))
      × (reply.actions ≡ e.actions)
      × (e'.actions ≡ [])
      × (e'.queue ≡ e.queue)
unfolding control_poll
control_poll_rows e body now gap_at later id =
    (report_row gap_at id body.running e.commands, refl, refl, refl)

lose_live : (now : ℕ) (c : Command) → is_live c.state ≡ true → (lose now c).state ≡ lost
unfolding lose
lose_live now c h = rw h

-- A live job that a poll names as never spawned is lost, with its queue row left in place. The next
-- claim that meets that row hands the same job out again, and the lost row is running once more.
pub lost_job_claimed_again :
    (e : Env) (body : Poll) (now gap_at later at : ℕ) (worker : String) (c : Command) (q : QueueRow)
    → find_command q.command_id e.commands ≡ some c
    → is_live c.state ≡ true
    → names_gap q.command_id body.running ≡ true
    → next_row e.queue at ≡ some q
    → let lost_env = (control_poll e body now gap_at later).0 in
      let (e', payload) = claim_next lost_env worker at in
      (Option.map (λ (r : Command). r.state) (find_command q.command_id lost_env.commands)
        ≡ some lost)
      × (payload ≡ some q.payload)
      × (Option.map (λ (r : Command). r.state) (find_command q.command_id e'.commands)
          ≡ some running)
lost_job_claimed_again e body now gap_at later at worker c q found live named next =
    let lost_env = (control_poll e body now gap_at later).0 in
    let (rows, _, _, same_queue) = control_poll_rows e body now gap_at later q.command_id in
    let lost_row : find_command q.command_id lost_env.commands ≡ some (lose gap_at c) =
      rows
      ∙ ap
          (λ b.
            if b
            then Option.map (lose gap_at) (find_command q.command_id e.commands)
            else find_command q.command_id e.commands)
          named
      ∙ ap (Option.map (lose gap_at)) found in
    let (handed, row) =
      claimed_row lost_env worker at q (ap (λ t. next_row t at) same_queue ∙ next) in
    (
      ap (Option.map (λ (r : Command). r.state)) lost_row ∙ ap some (lose_live gap_at c live),
      handed,
      ap (Option.map (λ (r : Command). r.state)) (row ∙ ap (Option.map (start at)) lost_row)
          ∙ ap some (state-start at (lose gap_at c)),
    )
