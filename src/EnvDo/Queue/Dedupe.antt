-- ===== src/EnvDo/Queue/Dedupe.antt =====
-- enqueue of broker/src/env-do.ts: a command that is sent again.
use gha_mcp_host.Prelude.{
  ℕ, ◌+◌, ◌≤◌, ◌≡◌, refl, ap, ◌∙◌, Bool, true, false, List, [], ◌∷◌, ◌++◌, none, some, arith,
  str_eq, eq_iff, keep, Bool-cases, inl, inr,
}
use gha_mcp_host.EnvSchema.{Command}
use gha_mcp_host.EnvDo.{Env}
use gha_mcp_host.EnvDo.Queue.{
  queue_full, Request, Enqueued, accepted, newest, first_of_newest, is_dupe, find_dupe, new_command,
  version, insert_both, enqueue, queue_depth,
}

keep-append {ℓ} :
    {A : Type ℓ} (p : A → Bool) (xs ys : List A) → keep p (xs ++ ys) ≡ keep p xs ++ keep p ys
keep-append p [] ys = refl
keep-append p (x ∷ xs) ys = elim (Bool-cases (p x)) [
  | inl e ↦ rw e (ap (λ zs. x ∷ zs) (keep-append p xs ys))
  | inr e ↦ rw e (keep-append p xs ys)
]

-- What is a dupe later was one before.
is_dupe_before :
    (r s : Request) (now at : ℕ) (c : Command)
    → s.idem_hash ≡ r.idem_hash
    → s.idem_window_ms ≡ r.idem_window_ms
    → now ≤ at
    → is_dupe s at c ≡ true
    → is_dupe r now c ≡ true
unfolding is_dupe
is_dupe_before r s now at c a b h d = ground (arith, ap (str_eq c.idem_hash) a)

dupes_stay_out :
    (r s : Request) (now at : ℕ) (cs : List Command)
    → s.idem_hash ≡ r.idem_hash
    → s.idem_window_ms ≡ r.idem_window_ms
    → now ≤ at
    → keep (is_dupe r now) cs ≡ []
    → keep (is_dupe s at) cs ≡ []
dupes_stay_out r s now at [] a b h e = refl
dupes_stay_out r s now at (c ∷ cs) a b h e =
    ground (arith, is_dupe_before r s now at c a b h, dupes_stay_out r s now at cs a b h)

none_found : (cs : List Command) → first_of_newest cs ≡ none → cs ≡ []
unfolding first_of_newest
none_found [] e = refl
none_found (c ∷ cs) e = cc

-- The table after an enqueue that queued a new command.
queued_table :
    (e : Env) (r : Request) (now later : ℕ) (x : Enqueued)
    → (enqueue e r now later).1 ≡ accepted x
    → x.deduped ≡ false
    → (find_dupe r now e.commands ≡ none)
      × ((enqueue e r now later).0.commands ≡ e.commands ++ new_command r later ∷ [])
unfolding enqueue insert_both
queued_table e r now later x h d = ground arith

new_is_dupe :
    (r s : Request) (later at : ℕ)
    → s.idem_hash ≡ r.idem_hash
    → s.idem_window_ms ≡ r.idem_window_ms
    → at ≤ later + r.idem_window_ms
    → is_dupe s at (new_command r later) ≡ true
unfolding is_dupe new_command
new_is_dupe r s later at a b h = ground (arith, eq_iff r.idem_hash s.idem_hash)

deduped_answer :
    (e : Env) (s : Request) (at later : ℕ) (c : Command)
    → find_dupe s at e.commands ≡ some c
    → enqueue e s at later ≡ (
      e,
      accepted (record {
        command_id = c.command_id;
        deduped = true;
        queue_position = 0;
        queue_depth = queue_depth e;
        overlay_version = version e;
      }),
    )
unfolding enqueue
deduped_answer e s at later c h = rw (h, enqueue)

found_new :
    (r s : Request) (now later at : ℕ) (cs : List Command)
    → s.idem_hash ≡ r.idem_hash
    → s.idem_window_ms ≡ r.idem_window_ms
    → now ≤ at
    → at ≤ later + r.idem_window_ms
    → find_dupe r now cs ≡ none
    → find_dupe s at (cs ++ new_command r later ∷ []) ≡ some (new_command r later)
unfolding find_dupe first_of_newest newest
found_new r s now later at cs a b h k e =
    let gone = dupes_stay_out r s now at cs a b h (none_found (keep (is_dupe r now) cs) e) in
    rw (
      keep-append (is_dupe s at) cs (new_command r later ∷ []),
      gone,
      new_is_dupe r s later at a b k,
    )

-- After a command has been queued, every request with the same hash and window that comes before the
-- window ends is answered with that command, and changes nothing.
pub enqueue_again :
    (e : Env) (r s : Request) (now later at later' : ℕ) (x : Enqueued)
    → (enqueue e r now later).1 ≡ accepted x
    → x.deduped ≡ false
    → s.idem_hash ≡ r.idem_hash
    → s.idem_window_ms ≡ r.idem_window_ms
    → now ≤ at
    → at ≤ later + r.idem_window_ms
    → let e' = (enqueue e r now later).0 in
      enqueue e' s at later' ≡ (
        e',
        accepted (record {
          command_id = r.command_id;
          deduped = true;
          queue_position = 0;
          queue_depth = queue_depth e';
          overlay_version = version e';
        }),
      )
unfolding new_command
enqueue_again e r s now later at later' x h d a b p q =
    let (fresh, table) = queued_table e r now later x h d in
    deduped_answer (enqueue e r now later).0 s at later' (new_command r later)
      (ap (find_dupe s at) table ∙ found_new r s now later at e.commands a b p q fresh)

-- A full queue turns a request away and stays as it is.
pub enqueue_full :
    (e : Env) (r : Request) (now later depth limit : ℕ)
    → (enqueue e r now later).1 ≡ queue_full depth limit
    → (enqueue e r now later).0 ≡ e
unfolding enqueue insert_both
enqueue_full e r now later depth limit h = ground arith
