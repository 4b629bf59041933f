-- ===== src/EnvDo/Ingest/Truth.antt =====
-- ingestChunk of broker/src/env-do.ts: rings and tails against the runner's output.
use mathlib.Core.Option
use gha_mcp_host.Prelude.{
  ℕ, ◌≡◌, ◌≢◌, refl, sym, ap, subst, ◌∙◌, Bool, true, false, String, List, [], ◌∷◌, Option, none,
  some, arith, ◌⊎◌, inl, inr, str_eq, eq_iff, length, ltb, get_or_else, Bool-cases, Option-cases,
}
use gha_mcp_host.Text.{Text}
use gha_mcp_host.Stream.{Agrees}
use gha_mcp_host.Ring.{Ring, ring_max, tail_max, new_ring, tail_of}
use gha_mcp_host.Ring.Laws.{Caches, append_chunk-Caches}
use gha_mcp_host.Ring.Serve.{tail_of-Agrees, new_ring-Caches}
use gha_mcp_host.EnvSchema.{is_terminal, Command}
use gha_mcp_host.EnvDo.{Env, find_command, lookup}
use gha_mcp_host.EnvDo.Tables.{lookup-insert, lookup-insert_ne}
use gha_mcp_host.EnvDo.Ingest.{
  Chunk, ring_after, tail_after, state_after, merge_row, put_ring, ingest_known, ingest_output,
  ingest_chunk,
}
use gha_mcp_host.EnvDo.Ingest.Routes.{
  answers_pull, ring_now, ingest_chunk_pull, ingest_chunk_row, ingest_all,
}

abbrev pub TailOk : List ℕ → Option ℕ → Option (List ℕ) → Type 0
TailOk out_raw tail_start tail_b64 =
    (s : ℕ) → tail_start ≡ some s → Agrees out_raw s (get_or_else tail_b64 [])

abbrev pub RingOk : List ℕ → Option Ring → Type 0
RingOk out_raw ring = (r : Ring) → ring ≡ some r → Caches out_raw r

-- Every ring and every stored tail agrees with the output of its command.
pub record Truthful (out_raw : String → List ℕ) (e : Env) : Type 0 where
  pub rings : (id : String) → RingOk (out_raw id) (lookup id e.rings)
  pub tails :
      (id : String) (c : Command)
      → find_command id e.commands ≡ some c
      → TailOk (out_raw id) c.tail_start c.tail_b64

some_inj : {r s : Ring} → some r ≡ some s → r ≡ s
some_inj {r} {s} p = ap (λ o. get_or_else o r) p

ring_after-Ok :
    {out_raw : List ℕ} (ring : Option Ring) (sb : ℕ) (bytes : List ℕ)
    → RingOk out_raw ring
    → Agrees out_raw sb bytes
    → RingOk out_raw (ring_after ring sb bytes)
unfolding ring_after
ring_after-Ok ring sb [] ok a r h = ok r h
ring_after-Ok {out_raw} none sb (b ∷ bs) ok a r h = subst (Caches out_raw) (some_inj h) (
    append_chunk-Caches (new_ring sb) sb (b ∷ bs) ring_max
      (new_ring-Caches out_raw sb (omega (arith, a.within))) a)
ring_after-Ok {out_raw} (some s) sb (b ∷ bs) ok a r h =
    subst (Caches out_raw) (some_inj h) (append_chunk-Caches s sb (b ∷ bs) ring_max (ok s refl) a)

-- The lookup after `put_ring` is the ring that was put.
put_ring_self :
    (id : String) (sb : ℕ) (bytes : List ℕ) (rings : List (String × Ring))
    → let ring = ring_after (lookup id rings) sb bytes in lookup id (put_ring id ring rings) ≡ ring
unfolding ring_after
put_ring_self id sb bytes rings = elim (Option-cases (ring_after (lookup id rings) sb bytes)) [
  | inl e ↦ rw (e, ring_after) (was_none (lookup id rings) bytes e)
  | inr (r, e) ↦ rw (e, ring_after) (lookup-insert id r rings)
]
  where
    was_none : (ring : Option Ring) (bytes : List ℕ) → ring_after ring sb bytes ≡ none → ring ≡ none
    was_none ring [] e = e
    was_none none (b ∷ bs) e = refl
    was_none (some r) (b ∷ bs) e = cc e

put_ring_ne :
    (id j : String) (ring : Option Ring) (rings : List (String × Ring))
    → j ≢ id
    → lookup j (put_ring id ring rings) ≡ lookup j rings
put_ring_ne id j none rings ne = refl
put_ring_ne id j (some r) rings ne = lookup-insert_ne id j r rings ne

merge_row-TailOk :
    {out_raw : List ℕ} (unknown : String → Text) (ring : Option Ring) (prev : Command)
    (body : Chunk) (now : ℕ)
    → RingOk out_raw ring
    → TailOk out_raw prev.tail_start prev.tail_b64
    → let row = merge_row unknown ring prev body now in TailOk out_raw row.tail_start row.tail_b64
unfolding merge_row tail_after
merge_row-TailOk {out_raw} unknown ring prev body now ok before =
    kept (is_terminal (state_after prev body)) ring ok
  where
    from_ring :
        (r : Ring)
        → Caches out_raw r
        → TailOk out_raw (some (tail_of r tail_max).start) (some (tail_of r tail_max).bytes)
    from_ring r c s h =
        subst (λ k. Agrees out_raw k (tail_of r tail_max).bytes) (ap (λ o. get_or_else o s) h)
          (tail_of-Agrees r tail_max c).0

    kept :
        (terminal : Bool) (ring : Option Ring)
        → RingOk out_raw ring
        → let t = tail_after terminal ring prev in TailOk out_raw t.1 t.0
    kept true (some r) ok = elim (Bool-cases (ltb 0 (length r.bytes))) [
      | inl e ↦ rw e (from_ring r (ok r refl))
      | inr e ↦ rw e before
    ]
    kept true none ok = before
    kept false ring ok = before

module _ (unknown : String → Text) (e : Env) (body : Chunk) (now later : ℕ) where
  after_output :
      answers_pull body ≡ false
      → ingest_chunk unknown e body now later ≡ ingest_output unknown e body now
  unfolding ingest_chunk
  after_output h = rw h

  output_rings :
      (ingest_output unknown e body now).rings
      ≡ put_ring body.command_id (ring_now unknown e body now later) e.rings
  unfolding ingest_output ingest_known
  output_rings = elim (Option-cases (find_command body.command_id e.commands)) [
    | inl missing ↦ rw (missing, ingest_output)
    | inr (prev, found) ↦ rw (found, ingest_output)
  ]

  rings_after :
      answers_pull body ≡ false
      → (ingest_chunk unknown e body now later).rings
        ≡ put_ring body.command_id (ring_now unknown e body now later) e.rings
  rings_after h = ap (λ (v : Env). v.rings) (after_output h) ∙ output_rings

  module _ (out_raw : String → List ℕ) (t : Truthful out_raw e)
      (a : Agrees (out_raw body.command_id) body.start_byte body.bytes)
      (h : answers_pull body ≡ false) where
    ring_ok : RingOk (out_raw body.command_id) (ring_now unknown e body now later)
    ring_ok =
        ring_after-Ok (lookup body.command_id e.rings) body.start_byte body.bytes
          (t.rings body.command_id) a

    rings_ok :
        (id : String)
        → RingOk (out_raw id) (lookup id (ingest_chunk unknown e body now later).rings)
    rings_ok id r found = elim (Bool-cases (str_eq id body.command_id)) [
      | inl same ↦
          let e1 : body.command_id ≡ id = sym ((eq_iff id body.command_id).0 same) in
          let self : lookup body.command_id (ingest_chunk unknown e body now later).rings
              ≡ ring_now unknown e body now later =
            ap (lookup body.command_id) (rings_after h)
            ∙ put_ring_self body.command_id body.start_byte body.bytes e.rings in
          subst (λ i. Caches (out_raw i) r) e1
            (ring_ok r (
              sym self
              ∙ ap (λ i. lookup i (ingest_chunk unknown e body now later).rings) e1
              ∙ found))
      | inr other ↦
          let ne : id ≢ body.command_id = λ p. cc ((eq_iff id body.command_id).1 p, other) in
          t.rings id r (
            sym (put_ring_ne body.command_id id (ring_now unknown e body now later) e.rings ne)
            ∙ sym (ap (lookup id) (rings_after h))
            ∙ found)
    ]

    row_ok :
        (o : Option Command)
        → ((c : Command) → o ≡ some c → TailOk (out_raw body.command_id) c.tail_start c.tail_b64)
        → (c : Command)
        → Option.map (λ prev. merge_row unknown (ring_now unknown e body now later) prev body now) o
          ≡ some c
        → TailOk (out_raw body.command_id) c.tail_start c.tail_b64
    row_ok none ok c m = cc m
    row_ok (some prev) ok c m =
        subst (λ (c : Command). TailOk (out_raw body.command_id) c.tail_start c.tail_b64)
          (ap (λ o. get_or_else o c) m)
          (merge_row-TailOk unknown (ring_now unknown e body now later) prev body now ring_ok
            (ok prev refl))

    tails_ok :
        (id : String) (c : Command)
        → find_command id (ingest_chunk unknown e body now later).commands ≡ some c
        → TailOk (out_raw id) c.tail_start c.tail_b64
    tails_ok id c found =
        let (row, others) = ingest_chunk_row unknown e body now later h in
        elim (Bool-cases (str_eq id body.command_id)) [
          | inl same ↦
              let e1 : body.command_id ≡ id = sym ((eq_iff id body.command_id).0 same) in
              subst (λ i. TailOk (out_raw i) c.tail_start c.tail_b64) e1
                (row_ok (find_command body.command_id e.commands) (t.tails body.command_id) c (
                  sym row
                  ∙ ap (λ i. find_command i (ingest_chunk unknown e body now later).commands) e1
                  ∙ found))
          | inr other ↦
              let ne : id ≢ body.command_id = λ p. cc ((eq_iff id body.command_id).1 p, other) in
              t.tails id c (sym (others id ne) ∙ found)
        ]

pull_Truthful :
    (unknown : String → Text) (e : Env) (body : Chunk) (now later : ℕ) (out_raw : String → List ℕ)
    → Truthful out_raw e
    → answers_pull body ≡ true
    → Truthful out_raw (ingest_chunk unknown e body now later)
pull_Truthful unknown e body now later out_raw t pull =
    let (rows, _, rings, _, _) = ingest_chunk_pull unknown e body now later pull in
    record {
      rings = λ id r h. t.rings id r (sym (ap (lookup id) rings) ∙ h);
      tails = λ id c h. t.tails id c (sym (ap (find_command id) rows) ∙ h);
    }

-- A chunk whose bytes are those that the runner wrote there keeps every ring and tail truthful. An
-- answer to a pull may carry any bytes: it reaches neither.
pub ingest_chunk-Truthful :
    (unknown : String → Text) (e : Env) (body : Chunk) (now later : ℕ) (out_raw : String → List ℕ)
    → Truthful out_raw e
    → (answers_pull body ≡ true) ⊎ Agrees (out_raw body.command_id) body.start_byte body.bytes
    → Truthful out_raw (ingest_chunk unknown e body now later)
ingest_chunk-Truthful unknown e body now later out_raw t (inl pull) =
    pull_Truthful unknown e body now later out_raw t pull
ingest_chunk-Truthful unknown e body now later out_raw t (inr a) =
    elim (Bool-cases (answers_pull body)) [
      | inl pull ↦ pull_Truthful unknown e body now later out_raw t pull
      | inr h ↦ record {
        rings = rings_ok unknown e body now later out_raw t a h;
        tails = tails_ok unknown e body now later out_raw t a h;
      }
    ]

-- Every chunk of the list, but for answers to pulls, says what its runner wrote.
abbrev pub AllTrue : (String → List ℕ) → List (Chunk × ℕ × ℕ) → Type 0
AllTrue out_raw [] = Unit {0}
AllTrue out_raw ((body, now, later) ∷ rest) =
    ((answers_pull body ≡ true) ⊎ Agrees (out_raw body.command_id) body.start_byte body.bytes)
    × AllTrue out_raw rest

pub ingest_all-Truthful :
    (unknown : String → Text) (e : Env) (chunks : List (Chunk × ℕ × ℕ)) (out_raw : String → List ℕ)
    → Truthful out_raw e
    → AllTrue out_raw chunks
    → Truthful out_raw (ingest_all unknown e chunks)
unfolding ingest_all
ingest_all-Truthful unknown e [] out_raw t a = t
ingest_all-Truthful unknown e ((body, now, later) ∷ rest) out_raw t a =
    ingest_all-Truthful unknown (ingest_chunk unknown e body now later) rest out_raw
      (ingest_chunk-Truthful unknown e body now later out_raw t a.0) a.1
