-- ===== src/EnvDo/Tables.antt =====
-- Lookups after the updates of the tables and maps.
use mathlib.Core.Option
use gha_mcp_host.Prelude.{
  ◌≡◌, ◌≢◌, refl, true, false, String, List, [], ◌∷◌, some, arith, str_eq, eq_iff, Bool-cases, inl,
  inr,
}
use gha_mcp_host.EnvSchema.{Command}
use gha_mcp_host.EnvDo.{find_command, update_command, lookup, insert}

pub str_eq_ne : (a b : String) → a ≢ b → str_eq a b ≡ false
str_eq_ne a b ne = elim (Bool-cases (str_eq a b)) [
  | inl e ↦ absurd (ne ((eq_iff a b).0 e))
  | inr e ↦ e
]

pub find_command-id :
    (id : String) (cs : List Command) (c : Command)
    → find_command id cs ≡ some c
    → str_eq c.command_id id ≡ true
unfolding find_command
find_command-id id [] c e = cc
find_command-id id (d ∷ ds) c e = ground (arith, find_command-id id ds c)

-- An update that keeps the key of the rows that it reaches changes exactly the row of its key.
pub find_command-update_self :
    (id : String) (f : Command → Command) (cs : List Command)
    → ((c : Command) → str_eq c.command_id id ≡ true → str_eq (f c).command_id id ≡ true)
    → find_command id (update_command id f cs) ≡ Option.map f (find_command id cs)
unfolding find_command update_command
find_command-update_self id f [] k = refl
find_command-update_self id f (c ∷ cs) k = ground (arith, k c, find_command-update_self id f cs k)

pub find_command-update_ne :
    (id j : String) (f : Command → Command) (cs : List Command)
    → ((c : Command) → str_eq c.command_id id ≡ true → str_eq (f c).command_id id ≡ true)
    → j ≢ id
    → find_command j (update_command id f cs) ≡ find_command j cs
unfolding find_command update_command
find_command-update_ne id j f [] k ne = refl
find_command-update_ne id j f (c ∷ cs) k ne = ground (
  arith,
  k c,
  eq_iff c.command_id id,
  eq_iff c.command_id j,
  eq_iff (f c).command_id id,
  eq_iff (f c).command_id j,
  find_command-update_ne id j f cs k ne,
)

pub lookup-insert {ℓ} :
    {V : Type ℓ} (k : String) (v : V) (m : List (String × V)) → lookup k (insert k v m) ≡ some v
unfolding lookup insert
lookup-insert k v [] = ground (arith, eq_iff k k)
lookup-insert k v ((j, w) ∷ m) = ground (arith, eq_iff k k, lookup-insert k v m)

pub lookup-insert_ne {ℓ} :
    {V : Type ℓ} (k j : String) (v : V) (m : List (String × V))
    → j ≢ k
    → lookup j (insert k v m) ≡ lookup j m
unfolding lookup insert
lookup-insert_ne k j v [] ne = ground (arith, eq_iff k j)
lookup-insert_ne k j v ((i, w) ∷ m) ne =
    ground (arith, eq_iff k j, eq_iff i j, eq_iff i k, lookup-insert_ne k j v m ne)
