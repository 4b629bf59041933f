-- ===== src/EnvWindow/Faithful.antt =====
-- readWindow of broker/src/env-window.ts against the runner's output.
use gha_mcp_host.Prelude.{
  ℕ, ◌+◌, ◌-◌, ◌≤◌, ◌<◌, ◌≡◌, refl, ap, subst, ◌∙◌, Bool, true, false, ◌&&◌, List, [], Option, none,
  some, arith, ◌↔◌, inl, inr, leb, length, take, drop, min, length-take, length-drop, take-take,
  take_eq, drop-drop, drop-take, ltb→lt, lt→ltb, leb→le, le→leb, Bool-cases, Option-cases,
}
use gha_mcp_host.Stream.{Agrees}
use gha_mcp_host.Ring.{Ring, Tail}
use gha_mcp_host.Ring.Laws.{Caches}
use gha_mcp_host.Ring.Serve.{Serves, slice_ring-Serves}
use gha_mcp_host.EnvSchema.{is_terminal, Command}
use gha_mcp_host.EnvWindow.{
  WindowSources, Served, evicted_at, from_tail, past_ring, ring_slice, serve, read_window,
  empty_window,
}

-- Every source agrees with the output that the runner wrote.
pub record IsSound (out_raw : List ℕ) (s : WindowSources) : Type 0 where
  pub ring_agrees : (r : Ring) → s.ring ≡ some r → Caches out_raw r
  pub tail_agrees : (t : Tail) → s.tail ≡ some t → Agrees out_raw t.start t.bytes

-- The bytes are those of the output at their offset, at most `max_bytes`, and what lies between the
-- offset asked for and theirs is counted as skipped.
pub record Shows (out_raw : List ℕ) (from max_bytes : ℕ) (s : Served) : Type 0 where
  pub same : s.bytes ≡ take (length s.bytes) (drop s.start out_raw)
  pub small : length s.bytes ≤ max_bytes
  pub counted : s.start ≡ from + s.skipped
  pub nothing_evicted : s.evicted ≡ true → s.bytes ≡ []

module _ (out_raw : List ℕ) (from max_bytes : ℕ) where
  empty-Shows :
      (evicted : Bool)
      → Shows out_raw from max_bytes
          (record { start = from; bytes = []; evicted = evicted; skipped = 0 })
  empty-Shows evicted = record {
    same = refl;
    small = omega arith;
    counted = omega arith;
    nothing_evicted = λ h. refl;
  }

  tail_same :
      (t : Tail) (offset n : ℕ)
      → Agrees out_raw t.start t.bytes
      → let xs = take n (drop offset t.bytes) in
        xs ≡ take (length xs) (drop (t.start + offset) out_raw)
  tail_same t offset n a =
      ap (take n) (
        ap (drop offset) a.same
        ∙ drop-take offset (length t.bytes) (drop t.start out_raw)
        ∙ ap (take (length t.bytes - offset)) (drop-drop offset t.start out_raw))
      ∙ take-take n (length t.bytes - offset) (drop (t.start + offset) out_raw)
      ∙ take_eq (drop (t.start + offset) out_raw)
          (omega (arith, length-take n (drop offset t.bytes), length-drop offset t.bytes))

  leb-lt : (a b : ℕ) → leb a b ≡ false → b < a
  leb-lt a b h = ground arith

  tail_at :
      (t : Tail) (start offset n : ℕ)
      → Agrees out_raw t.start t.bytes
      → t.start + offset ≡ start
      → let xs = take n (drop offset t.bytes) in xs ≡ take (length xs) (drop start out_raw)
  tail_at t start offset n a e =
      let xs = take n (drop offset t.bytes) in
      subst (λ k. xs ≡ take (length xs) (drop k out_raw)) e (tail_same t offset n a)

  from_tail-Shows :
      (may_skip : Bool) (t : Tail)
      → Agrees out_raw t.start t.bytes
      → Shows out_raw from max_bytes (from_tail may_skip t from max_bytes)
  unfolding from_tail evicted_at
  from_tail-Shows may_skip t a = elim (Bool-cases (leb t.start from)) [
    | inl inside ↦
        let le = leb→le t.start from inside in
        let offset = from - t.start in
        let n = min (length t.bytes) (offset + max_bytes) - offset in
        rw inside (record {
          same = tail_at t from offset n a (omega arith);
          small = omega (arith, length-take n (drop offset t.bytes));
          counted = omega arith;
          nothing_evicted = λ h. cc h;
        })
    | inr before ↦ elim (Bool-cases may_skip) [
      | inl skips ↦
          let lt = leb-lt t.start from before in
          let n = min (length t.bytes) max_bytes - 0 in
          rw (before, skips)
            (record {
              same = tail_at t t.start 0 n a (omega arith);
              small = omega (arith, length-take n (drop 0 t.bytes));
              counted = omega arith;
              nothing_evicted = λ h. cc h;
            })
      | inr stays ↦ rw (before, stays) (empty-Shows true)
    ]
  ]

  past_ring-Shows :
      (tail : Option Tail) (may_skip : Bool) (total : ℕ)
      → ((t : Tail) → tail ≡ some t → Agrees out_raw t.start t.bytes)
      → Shows out_raw from max_bytes (past_ring tail may_skip total from max_bytes)
  unfolding past_ring evicted_at
  past_ring-Shows tail may_skip total a = elim (Bool-cases (leb total from)) [
    | inl caught_up ↦ rw caught_up (empty-Shows false)
    | inr behind ↦ elim (Option-cases tail) [
      | inl no_tail ↦ rw (behind, no_tail) (empty-Shows true)
      | inr (t, found) ↦ rw (behind, found) (from_tail-Shows may_skip t (a t found))
    ]
  ]

  ring-Shows :
      (r : Ring) (xs : List ℕ)
      → Serves out_raw r from max_bytes (some xs)
      → Shows out_raw from max_bytes
          (record { start = from; bytes = xs; evicted = false; skipped = 0 })
  ring-Shows r xs s = record {
    same = s.2.same;
    small = omega (arith, s.3);
    counted = omega arith;
    nothing_evicted = λ h. cc h;
  }

  serve-Shows :
      (row : Command) (s : WindowSources)
      → IsSound out_raw s
      → Shows out_raw from max_bytes (serve row s from max_bytes)
  unfolding serve
  serve-Shows row s sound = elim (Option-cases (ring_slice s.ring from max_bytes)) [
    | inl missing ↦
        rw (missing, serve)
          (past_ring-Shows s.tail (is_terminal row.state && s.runner_gone) row.total_bytes
            sound.tail_agrees)
    | inr (xs, hit) ↦ rw (hit, serve) (in_ring s.ring sound.ring_agrees hit)
  ]
    where
      in_ring :
          (ring : Option Ring)
          → ((r : Ring) → ring ≡ some r → Caches out_raw r)
          → {xs : List ℕ} → ring_slice ring from max_bytes ≡ some xs
          → Shows out_raw from max_bytes
              (record { start = from; bytes = xs; evicted = false; skipped = 0 })
      in_ring none c h = cc h
      in_ring (some r) c {xs} h = ring-Shows r xs (
          subst (Serves out_raw r from max_bytes) h (slice_ring-Serves r from max_bytes (c r refl)))

-- For sound sources, a window shows at most `max_bytes` bytes of the runner's output, at the offset
-- that it names, which is the offset asked for plus the bytes that it says it skipped; a range that
-- is evicted comes without bytes. `eof` says that the command has ended and that the window reaches
-- the total; `truncated` says that the window stops short of the total.
pub read_window-Shows :
    (out_raw : List ℕ) (row : Command) (s : WindowSources) (from max_bytes : ℕ)
    → IsSound out_raw s
    → let w = read_window row s from max_bytes in
      (w.bytes_b64 ≡ take (length w.bytes_b64) (drop w.start_byte out_raw))
      × (length w.bytes_b64 ≤ max_bytes)
      × (w.start_byte ≡ from + w.head_discarded_bytes)
      × (w.range_evicted ≡ true → w.bytes_b64 ≡ [])
      × ((w.eof ≡ true) ↔ (
          (is_terminal row.state ≡ true) × (row.total_bytes ≤ w.start_byte + length w.bytes_b64)))
      × ((w.truncated ≡ true) ↔ (w.start_byte + length w.bytes_b64 < row.total_bytes))
unfolding read_window
read_window-Shows out_raw row s from max_bytes sound =
    let shows = serve-Shows out_raw from max_bytes row s sound in
    let served = serve row s from max_bytes in
    let end = served.start + length served.bytes in
    (
      shows.same,
      shows.small,
      shows.counted,
      shows.nothing_evicted,
      both (is_terminal row.state) row.total_bytes end,
      ((λ h. ltb→lt end row.total_bytes h), (λ h. lt→ltb end row.total_bytes h)),
    )
  where
    both : (b : Bool) (total end : ℕ) → ((b && leb total end) ≡ true) ↔ ((b ≡ true) × (total ≤ end))
    both true total end = ((λ h. (refl, leb→le total end h)), (λ h. le→leb total end h.1))
    both false total end = ((λ h. cc h), (λ h. cc h.0))

pub empty_window_lem :
    (out_raw : List ℕ) (from max_bytes : ℕ)
    → let w = empty_window from in
      (w.bytes_b64 ≡ take (length w.bytes_b64) (drop w.start_byte out_raw))
      × (length w.bytes_b64 ≤ max_bytes)
      × (w.start_byte ≡ from + w.head_discarded_bytes)
unfolding empty_window
empty_window_lem out_raw from max_bytes = (refl, omega arith, omega arith)
