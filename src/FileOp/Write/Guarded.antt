-- ===== src/FileOp/Write/Guarded.antt =====
-- lib/fileop.mjs, opWrite: writes under the digest of what their writers have seen.

use gha_mcp_host.Prelude.{
  ℕ, ◌+◌, ◌<◌, ◌≤◌, ◌≡◌, ◌≢◌, refl, sym, ap, subst, ◌∙◌, arith, Bool, true, false, not, List, [],
  ◌∷◌, Option, some, length, if◌then◌else◌, get_or_else, is_some, le→ltb, text_eq, Bool-cases, inl,
  inr,
}
use gha_mcp_host.Text.{Text, text_eq-same, text_eq_refl}
use gha_mcp_host.FileOp.{write_max_bytes, rename_budget_ms}
use gha_mcp_host.FileOp.Host.{
  Host, Stat, Try, value, thrown, Written, rename, resolve_target, stat_or_null,
}
use gha_mcp_host.FileOp.Files.{ServedBy, sha256_file_lem}
use gha_mcp_host.FileOp.Replies.{
  Job, Reply, committed, Committed, changed_since, is_stale, errno_fail,
}
use gha_mcp_host.FileOp.Write.{
  commit_reply, commit, commit_answer, mode_of, current_sha, is_dir, write_checked, op_write,
}

-- A file of this content, which is no directory.
pub record IsFile (H : Host) (s : H.State) (abs : Text) (content : List ℕ) : Type 0 where
  pub served : ServedBy H s abs content
  pub st : Stat
  pub looks : H.stat s abs ≡ value st
  pub size : st.size ≡ length content
  pub plain : st.is_directory ≡ false

-- What a write that returns has done: the file has the bytes, and the same name stands for it.
pub record Commits (H : Host) : Type 0 where
  pub leaves :
      (s : H.State) (abs : Text) (bytes : List ℕ) (mode deadline : ℕ) (w : Written)
      → (H.write_atomic s abs bytes mode deadline).1 ≡ value w
      → IsFile H (H.write_atomic s abs bytes mode deadline).0 abs bytes

abbrev pub given_of : Job → Text
given_of a = get_or_else a.path []

abbrev pub abs_of : (H : Host) → H.State → Job → Text
abs_of H s a = resolve_target H s (given_of a)

abbrev pub bytes_of : Host → Job → List ℕ
bytes_of H a = H.base64_decode (get_or_else a.content_b64 [])

if_true {ℓ} : {A : Type ℓ} (x y : A) {b : Bool} → b ≡ true → (if b then x else y) ≡ x
if_true x y e = ap (λ b. if b then x else y) e

if_false {ℓ} : {A : Type ℓ} (x y : A) {b : Bool} → b ≡ false → (if b then x else y) ≡ y
if_false x y e = ap (λ b. if b then x else y) e

-- A writer brings the digest `base`.
abbrev pub Brings : Text → Job → Type 0
Brings base a = (a.base_sha ≡ some base) × (0 < length base)

stale_for :
    (base sha : Text) (a : Job) → Brings base a → sha ≢ base → is_stale a.base_sha sha ≡ true
unfolding is_stale
stale_for [] sha a (e, long) ne = absurd (omega (arith, long))
stale_for (c ∷ cs) sha a (e, long) ne = rw e (elim (Bool-cases (text_eq (c ∷ cs) sha)) [
  | inl same ↦ absurd (ne (sym (text_eq-same (c ∷ cs) sha same)))
  | inr other ↦ ap not other
])

fresh_for : (base : Text) (a : Job) → Brings base a → is_stale a.base_sha base ≡ false
unfolding is_stale
fresh_for [] a (e, long) = absurd (omega (arith, long))
fresh_for (c ∷ cs) a (e, long) = rw e (ap not (text_eq_refl (c ∷ cs)))

module _ (H : Host) (turns : ℕ) where
  -- A write to a file that is there compares the digest that it brings, if any, with that of the bytes
  -- of the file: if they differ it changes nothing and says what the digest is now, otherwise it writes.
  pub op_write_lem :
      (s : H.State) (a : Job) (now : ℕ) (content : List ℕ)
      (file : IsFile H s (abs_of H s a) content)
      → length content < turns
      → length (bytes_of H a) ≤ write_max_bytes
      → op_write H turns s a now ≡ (
          let sha = H.sha256 content in
          if is_stale a.base_sha sha
          then (s, value (changed_since (given_of a) (abs_of H s a) sha))
          else commit H turns s
              (abs_of H s a)
              (given_of a)
              (bytes_of H a)
              (some file.st)
              rename
              now)
  unfolding op_write write_checked current_sha is_dir stat_or_null
  op_write_lem s a now content file enough small =
      let sha = sha256_file_lem H s (abs_of H s a) content file.served turns enough in
      rw (
        le→ltb write_max_bytes (length (bytes_of H a)) small,
        file.looks,
        stat_or_null,
        file.plain,
        sha,
      )

  -- What a committed write says of the file is so: it has the bytes, their digest and their number.
  abbrev pub Verified : H.State → Text → List ℕ → Option Stat → Try Reply → Type 0
  Verified s abs bytes cur (value (committed c)) =
      IsFile H s abs bytes
      × (c.sha_verified ≡ H.sha256 bytes)
      × (c.size_verified ≡ some (length bytes))
      × (c.created ≡ not (is_some cur))
  Verified s abs bytes cur _ = Unit {0}

  commit_answer-Verified :
      (s : H.State) (abs given : Text) (bytes : List ℕ) (cur : Option Stat) (mode : ℕ) (w : Written)
      → length bytes < turns
      → IsFile H s abs bytes
      → Verified s abs bytes cur (commit_answer H turns s abs given cur mode w)
  unfolding commit_answer stat_or_null
  commit_answer-Verified s abs given bytes cur mode w enough file =
      rw
        (
          file.looks,
          stat_or_null,
          sha256_file_lem H s abs bytes file.served turns enough,
          commit_answer,
        )
        (file, refl, ap some file.size, refl)

  commit_reply-Verified :
      (s : H.State) (abs given : Text) (bytes : List ℕ) (cur : Option Stat) (w : Try Written)
      → length bytes < turns
      → ((v : Written) → w ≡ value v → IsFile H s abs bytes)
      → Verified s abs bytes cur (commit_reply H turns s abs given cur rename (mode_of cur) w)
  unfolding commit_reply errno_fail
  commit_reply-Verified s abs given bytes cur (thrown e) enough file = tt
  commit_reply-Verified s abs given bytes cur (value v) enough file =
      commit_answer-Verified s abs given bytes cur (mode_of cur) v enough (file v refl)

  pub commit-Verified :
      (s : H.State) (abs given : Text) (bytes : List ℕ) (cur : Option Stat) (now : ℕ)
      → Commits H
      → length bytes < turns
      → let (s', reply) = commit H turns s abs given bytes cur rename now in
        Verified s' abs bytes cur reply
  unfolding commit
  commit-Verified s abs given bytes cur now lawful enough =
      let swept = H.sweep_orphan_tmp s (H.dirname abs) in
      let deadline = now + rename_budget_ms in
      let done = H.write_atomic swept abs bytes (mode_of cur) deadline in
      commit_reply-Verified done.0 abs given bytes cur done.1 enough
        (λ w e. lawful.leaves swept abs bytes (mode_of cur) deadline w e)

  -- No update is lost: of two writers that have seen the same bytes of a file, the one whose write comes
  -- second, after a first that was committed with bytes of another digest, changes nothing and is told
  -- the digest of the first one's bytes.
  pub no_lost_update :
      (s : H.State) (a b : Job) (now later : ℕ) (content : List ℕ) (c : Committed)
      → Commits H
      → IsFile H s (abs_of H s a) content
      → length content < turns
      → length (bytes_of H a) < turns
      → length (bytes_of H a) ≤ write_max_bytes
      → length (bytes_of H b) ≤ write_max_bytes
      → Brings (H.sha256 content) a
      → Brings (H.sha256 content) b
      → H.sha256 (bytes_of H a) ≢ H.sha256 content
      → (op_write H turns s a now).1 ≡ value (committed c)
      → let s' = (op_write H turns s a now).0 in
        abs_of H s' b ≡ abs_of H s a
        → op_write H turns s' b later
          ≡ (s', value (changed_since (given_of b) (abs_of H s' b) (H.sha256 (bytes_of H a))))
  no_lost_update s a b now later content c lawful file enough more small_a small_b by_a by_b new
        done same =
      let s' = (op_write H turns s a now).0 in
      let abs = abs_of H s a in
      let cur = some file.st in
      let wrote : op_write H turns s a now
          ≡ commit H turns s abs (given_of a) (bytes_of H a) cur rename now =
        op_write_lem s a now content file enough small_a
        ∙ if_false _ _ (fresh_for (H.sha256 content) a by_a) in
      let checked =
        subst (λ (r : H.State × Try Reply). Verified r.0 abs (bytes_of H a) cur r.1) (sym wrote)
          (commit-Verified s abs (given_of a) (bytes_of H a) cur now lawful more) in
      let (there, _, _, _) = subst (Verified s' abs (bytes_of H a) cur) done checked in
      let file' = subst (λ p. IsFile H s' p (bytes_of H a)) (sym same) there in
      op_write_lem s' b later (bytes_of H a) file' more small_b
      ∙ if_true _ _ (stale_for (H.sha256 content) (H.sha256 (bytes_of H a)) b by_b new)
