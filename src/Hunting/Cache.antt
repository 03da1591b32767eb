-- ===== src/Hunting/Cache.antt =====
-- The cache of table schemas (src/hunting/mod.rs), and what it promises: the last schema that was put
-- for a table, while it is fresh.
use microsoft_defender_mcp.Prelude.{
  ℕ, ◌-◌, ◌*◌, ◌≤◌, ◌≡◌, refl, ap, ◌∙◌, inl, inr, Option, none, some, List, [], ◌∷◌, arith, ltb,
  if◌then◌else◌, Bool-cases,
}
use microsoft_defender_mcp.Json.{Json}
use microsoft_defender_mcp.Text.{Text, text_eq}

-- An instant is a number of nanoseconds; `elapsed` stops at zero.
abbrev pub schema_ttl : ℕ
schema_ttl = 3600 * 1000000000

abbrev pub Entry : Type 0
Entry = ℕ × Json

abbrev pub SchemaCache : Type 0
SchemaCache = Text → Option Entry

-- `Option::filter(|(at, _)| at.elapsed() < SCHEMA_TTL)`
abbrev pub fresh : (now : ℕ) → Option Entry → Option Entry
fresh now none = none
fresh now (some (at, v)) = if ltb (now - at) schema_ttl then some (at, v) else none

abbrev pub value_of : Option Entry → Option Json
value_of none = none
value_of (some (at, v)) = some v

abbrev pub empty_cache : SchemaCache
empty_cache table = none

unfoldable pub get_schema : SchemaCache → (now : ℕ) → Text → Option Json
get_schema cache now table = value_of (fresh now (cache table))

unfoldable pub put_schema : SchemaCache → (now : ℕ) → Text → Json → SchemaCache
put_schema cache now table schema name =
    if text_eq table name then some (now, schema) else fresh now (cache name)

-- A put, with its time.
pub record Put : Type 0 where
  pub at : ℕ
  pub table : Text
  pub schema : Json

-- The cache that a history of puts leaves, the last one first.
unfoldable pub cache_after : List Put → SchemaCache
cache_after [] = empty_cache
cache_after (p ∷ ps) = put_schema (cache_after ps) p.at p.table p.schema

-- The last put of a table.
abbrev pub last_put : List Put → Text → Option Entry
last_put [] table = none
last_put (p ∷ ps) table = if text_eq p.table table then some (p.at, p.schema) else last_put ps table

-- The clock never went back.
abbrev pub Ordered : (now : ℕ) → List Put → Type 0
Ordered now [] = Unit
Ordered now (p ∷ ps) = (p.at ≤ now) × Ordered p.at ps

-- What was stale before is stale now.
fresh-fresh :
    (early now : ℕ) → early ≤ now → (e : Option Entry) → fresh now (fresh early e) ≡ fresh now e
fresh-fresh early now h none = refl
fresh-fresh early now h (some (at, v)) = ground arith

fresh_puts :
    (ps : List Put) (now : ℕ) (table : Text)
    → Ordered now ps
    → fresh now (cache_after ps table) ≡ fresh now (last_put ps table)
unfolding cache_after put_schema
fresh_puts [] now table h = refl
fresh_puts (p ∷ ps) now table h = elim (Bool-cases (text_eq p.table table)) [
  | inl same ↦ rw (same) refl
  | inr other ↦
      let earlier = fresh_puts ps p.at table h.1 in
      let there = fresh-fresh p.at now h.0 (last_put ps table) in
      rw other (ap (fresh now) earlier ∙ there)
]

-- After any puts, where the clock never went back, the cache answers for a table with the schema that
-- was put for it last, while that is younger than an hour, and with nothing otherwise.
pub get_schema-last_put :
    (ps : List Put) (now : ℕ) (table : Text)
    → Ordered now ps
    → get_schema (cache_after ps) now table ≡ value_of (fresh now (last_put ps table))
unfolding get_schema
get_schema-last_put ps now table h = ap value_of (fresh_puts ps now table h)
