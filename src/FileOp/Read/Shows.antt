-- ===== src/FileOp/Read/Shows.antt =====
-- lib/fileop.mjs, opRead: what a read shows of a file.

use gha_mcp_host.Prelude.{
  ℕ, ◌≢◌, max, Bool, true, false, ◌||◌, ◌==◌, [], ◌∷◌, get_or_else, pos_part, ℤ, pos, negsuc, ◌+◌,
  ◌-◌, ◌<◌, ◌≤◌, ◌≡◌, ◌⊎◌, inl, inr, refl, sym, ap, subst, arith, min, List, Option, none, some,
  ltb, leb, length, slice, take, take_all, ◌∙◌, drop, length-take, length-drop, if◌then◌else◌,
  Bool-cases, Option-cases,
}
use gha_mcp_host.Text.{Text, join}
use gha_mcp_host.FileOp.{
  binary_scan_prefix_bytes, any_nul, read_default_bytes, read_max_bytes, line_limit_default,
  has_nul_prefix, split_bom, to_lf, split, lf_text,
}
use gha_mcp_host.FileOp.Host.{
  Host, Stat, Try, value, thrown, binary_file, not_utf8, transfer, read_window, decode_strict,
}
use gha_mcp_host.FileOp.Files.{read_window_lem, sha256_file_lem}
use gha_mcp_host.FileOp.Replies.{Job, Reply, ReadReply, read, failed, errno_fail, clamp_num}
use gha_mcp_host.FileOp.Write.Guarded.{IsFile, given_of, abs_of}
use gha_mcp_host.FileOp.Edit.Rejoined.{decoded}
use gha_mcp_host.FileOp.Read.{start_line, base_of, read_lines, read_text, op_read}

abbrev pub HasNul : List ℕ → Type 0
HasNul [] = ⊥
HasNul (b ∷ bs) = (b ≡ 0) ⊎ HasNul bs

abbrev pub HasNoNul : List ℕ → Type 0
HasNoNul [] = Unit {0}
HasNoNul (b ∷ bs) = (b ≢ 0) × HasNoNul bs

-- The first line of a window of `count` lines: the offset counts from the beginning, or from the end
-- where it is negative, and stops at either.
abbrev pub IsFirstLine : Option ℤ → ℕ → ℕ → Type 0
IsFirstLine none count start = start ≡ 0
IsFirstLine (some (pos n)) count start =
    ((start ≡ n) × (n ≤ count)) ⊎ ((start ≡ count) × (count < n))
IsFirstLine (some (negsuc n)) count start =
    (start + (n + 1) ≡ count) ⊎ ((start ≡ 0) × (count < n + 1))

abbrev pub lines_of : Text → List Text
lines_of text = split lf_text (to_lf (split_bom text).1)

-- What a reply says of the bytes of a file. `from` and `want` are the window that was asked for, and
-- `offset` and `limit` its lines.
pub record Shows (H : Host) (content : List ℕ) (from want : ℕ) (offset : Option ℤ) (limit : ℕ)
    (r : ReadReply) : Type 0 where
  pub text : Text
  pub is_text : H.utf8_encode text ≡ take want (drop from content)
  pub decodes : decode_strict H (take want (drop from content)) ≡ some text
  pub range : r.byte_range ≡ (from, min (from + want) (length content))
  pub more : r.next_byte ≡ (if ltb (from + want) (length content) then some (from + want) else none)
  pub size : r.total_bytes ≡ length content
  pub first : IsFirstLine offset (length (lines_of text)) r.start_line
  pub last : r.end_line ≡ min (length (lines_of text)) (r.start_line + limit)
  pub lines : r.text ≡ join lf_text (slice (lines_of text) r.start_line r.end_line)
  pub count : r.lines_in_window ≡ length (lines_of text)
  pub cut :
      r.truncated ≡ (ltb (from + want) (length content) || ltb r.end_line (length (lines_of text)))
  pub digest :
      r.base_sha ≡ (if leb (length content) read_max_bytes then some (H.sha256 content) else none)

-- A reply shows the file, whose scanned bytes are no NULs; or it says that there is a NUL among them; or
-- it says that the window is no text, where there is none.
abbrev pub Shown : (H : Host) → List ℕ → ℕ → ℕ → Option ℤ → ℕ → Try Reply → Type 0
Shown H content from want offset limit (value (read r)) =
    HasNoNul (take binary_scan_prefix_bytes (take want (drop from content)))
    × Shows H content from want offset limit r
Shown H content from want offset limit (value (failed f)) =
    let raw = take want (drop from content) in
    ((f.error ≡ binary_file) × HasNul (take binary_scan_prefix_bytes raw))
    ⊎ ((f.error ≡ not_utf8)
        × HasNoNul (take binary_scan_prefix_bytes raw)
        × (decode_strict H raw ≡ none))
Shown H content from want offset limit _ = ⊥

take-min {ℓ} : {A : Type ℓ} (n : ℕ) (xs : List A) → take (min (length xs) n) xs ≡ take n xs
take-min n xs = elim (Bool-cases (leb n (length xs))) [
  | inl within ↦ let same : min (length xs) n ≡ n = ground arith in ap (λ k. take k xs) same
  | inr over ↦ take_all (min (length xs) n) xs (ground arith) ∙ sym (take_all n xs (ground arith))
]

is_zero : (b : ℕ) → (b == 0) ≡ true → b ≡ 0
is_zero b h = ground arith

is_not_zero : (b : ℕ) → (b == 0) ≡ false → b ≢ 0
is_not_zero b h e = ground arith

any_nul_lem : (bs : List ℕ) → (any_nul bs ≡ true → HasNul bs) × (any_nul bs ≡ false → HasNoNul bs)
any_nul_lem [] = ((λ h. cc h), (λ h. tt))
any_nul_lem (b ∷ bs) = elim (Bool-cases (b == 0)) [
  | inl zeroed ↦ rw (zeroed) ((λ h. inl (is_zero b zeroed)), (λ h. cc h))
  | inr other ↦
      let (found, clean) = any_nul_lem bs in
      rw (other) ((λ h. inr (found h)), (λ h. (is_not_zero b other, clean h)))
]

has_nul_prefix_lem :
    (raw : List ℕ)
    → (has_nul_prefix raw ≡ true → HasNul (take binary_scan_prefix_bytes raw))
      × (has_nul_prefix raw ≡ false → HasNoNul (take binary_scan_prefix_bytes raw))
unfolding has_nul_prefix
has_nul_prefix_lem raw =
    rw (take-min binary_scan_prefix_bytes raw) (any_nul_lem (take binary_scan_prefix_bytes raw))

start_line-IsFirstLine : (o : Option ℤ) (count : ℕ) → IsFirstLine o count (start_line o count)
unfolding start_line
start_line-IsFirstLine none count = refl
start_line-IsFirstLine (some (pos n)) count = elim (Bool-cases (leb n count)) [
  | inl le ↦ inl (ground arith, ground arith)
  | inr gt ↦ inr (ground arith, ground arith)
]
start_line-IsFirstLine (some (negsuc n)) count = elim (Bool-cases (leb (n + 1) count)) [
  | inl le ↦ inl (ground arith)
  | inr gt ↦ inr (ground arith, ground arith)
]

raw_length :
    (from want : ℕ) (content : List ℕ)
    → length (take want (drop from content)) ≡ min want (length content - from)
raw_length from want content =
    omega (arith, length-take want (drop from content), length-drop from content)

more_after :
    (from want total size l : ℕ)
    → from ≤ total
    → size ≡ total
    → l ≡ min want (total - from)
    → (if ltb (from + l) size then some (from + l) else none)
      ≡ (if ltb (from + want) total then some (from + want) else none)
more_after from want total size l le e h = ground arith

cut_after :
    (from want total size l : ℕ) (b : Bool)
    → from ≤ total
    → size ≡ total
    → l ≡ min want (total - from)
    → (ltb (from + l) size || b) ≡ (ltb (from + want) total || b)
cut_after from want total size l b le e h = ground arith

module _ (H : Host) (turns : ℕ) (s : H.State) (a : Job) (content : List ℕ) where
  abbrev pub from_of : ℕ
  from_of = max 0 (min (length content) (pos_part (get_or_else a.from_byte (pos 0))))

  abbrev pub want_of : ℕ
  want_of = max 1 (min read_max_bytes (pos_part (get_or_else a.max_bytes (pos read_default_bytes))))

  abbrev pub limit_of : ℕ
  limit_of = max 1 (min 100_000 (pos_part (get_or_else a.limit (pos line_limit_default))))

  abbrev raw_of : List ℕ
  raw_of = take want_of (drop from_of content)

  base_shown :
      (file : IsFile H s (abs_of H s a) content)
      → length content < turns
      → base_of H turns s (abs_of H s a) file.st.size
        ≡ value (if leb (length content) read_max_bytes then some (H.sha256 content) else none)
  unfolding base_of
  base_shown file enough = elim (Bool-cases (leb (length content) read_max_bytes)) [
    | inl e ↦ rw (file.size, e, sha256_file_lem H s (abs_of H s a) content file.served turns enough)
    | inr e ↦ rw (file.size, e)
  ]

  from_inside : from_of ≤ length content
  from_inside = omega arith

  lines-Shown :
      (st : Stat) (text : Text)
      → st.size ≡ length content
      → HasNoNul (take binary_scan_prefix_bytes raw_of)
      → H.utf8_encode text ≡ raw_of
      → decode_strict H raw_of ≡ some text
      → Shown H content from_of want_of a.offset limit_of (
          value (
            read_lines a
              (given_of a)
              (abs_of H s a)
              st
              from_of
              raw_of
              text
              (if leb (length content) read_max_bytes then some (H.sha256 content) else none)))
  unfolding read_lines clamp_num
  lines-Shown st text size clean same good = (
    clean,
    record {
      text = text;
      is_text = same;
      decodes = good;
      range =
          ap (λ n. (from_of, n)) (omega (arith, raw_length from_of want_of content, from_inside));
      more =
          more_after from_of want_of (length content) st.size (length raw_of) from_inside size
            (raw_length from_of want_of content);
      size = size;
      first = start_line-IsFirstLine a.offset (length (lines_of text));
      last = refl;
      lines = refl;
      count = refl;
      cut =
          cut_after from_of want_of (length content) st.size (length raw_of) _ from_inside size
            (raw_length from_of want_of content);
      digest = refl;
    },
  )

  abbrev text_reply : Stat → Try Reply
  text_reply st = read_text H turns s a (given_of a) (abs_of H s a) st from_of raw_of

  text-Shown :
      (file : IsFile H s (abs_of H s a) content)
      → length content < turns
      → Shown H content from_of want_of a.offset limit_of (text_reply file.st)
  unfolding read_text
  text-Shown file enough = elim (Bool-cases (has_nul_prefix raw_of)) [
    | inl nul ↦ rw nul (inl (refl, (has_nul_prefix_lem raw_of).0 nul))
    | inr clean ↦ elim (Option-cases (decode_strict H raw_of)) [
      | inl bad ↦ rw (clean, bad) (inr (refl, (has_nul_prefix_lem raw_of).1 clean, bad))
      | inr (text, good) ↦
          rw (clean, good, base_shown file enough)
            (lines-Shown file.st text file.size ((has_nul_prefix_lem raw_of).1 clean)
              (decoded H raw_of text good) good)
    ]
  ]

  abbrev after_window : ℕ → Stat → Try Reply
  after_window from st = elim (read_window H s (abs_of H s a) from want_of) [
    | thrown e ↦ value (errno_fail transfer e (given_of a) (abs_of H s a))
    | value raw ↦ read_text H turns s a (given_of a) (abs_of H s a) st from raw
  ]

  window-Shown :
      (file : IsFile H s (abs_of H s a) content)
      → length content < turns
      → Shown H content from_of want_of a.offset limit_of (after_window from_of file.st)
  window-Shown file enough =
      rw (read_window_lem H s (abs_of H s a) content file.served from_of want_of, Shown)
        (text-Shown file enough)

  -- A read of a file that is there, and no directory, answers. It refuses the window as binary exactly if
  -- a NUL is among its scanned bytes, and else as no text exactly if it does not decode; otherwise it
  -- shows it: the bytes of the window are those of a text, next_byte is the window's end exactly where
  -- the file goes on, the lines are those from start_line to end_line of the text with line feeds and
  -- without its byte order mark, start_line is as the offset asks, from the beginning or the end, and
  -- end_line as the limit asks or the last; the reply is truncated exactly if bytes or lines are left,
  -- and the digest is that of the whole file, unless it is too large.
  pub op_read-Shown :
      IsFile H s (abs_of H s a) content
      → length content < turns
      → Shown H content from_of want_of a.offset limit_of (op_read H turns s a)
  unfolding op_read clamp_num
  op_read-Shown file enough =
      rw (file.looks, op_read)
        (rw file.plain (
          subst
            (λ n.
              Shown H content from_of want_of a.offset limit_of
                (after_window (max 0 (min n (pos_part (get_or_else a.from_byte (pos 0))))) file.st))
            (sym file.size) (window-Shown file enough)))
