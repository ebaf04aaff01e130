-- ===== src/Api/Store/ForeignKey/Tests.antt =====
-- A database with the foreign key, and the registration of a new token with it.
use gratis.Api.Store.Requests.{creates, serve, Request}
use gratis.Host.{no_rows, err, ok, Error, Result, external}
use gratis.Api.Store.{TokenRow, authenticate, Postgres}
use gratis.Text.{str_eq, str_keys, bytes, Str}
use gratis.Api.Store.ForeignKey.{serve-rejects_all, Keyed, Fails}
use gratis.Base.{
  if◌then◌else◌, inr, inl, ◌||◌, arith, Option-cases, refl, true, some, lookup, ◌≡◌, false, none,
  Bool, Option, ℕ, List, ◌∷◌, [],
}

is_in : Str → List Str → Bool
is_in id [] = false
is_in id (s ∷ servers) = str_eq s id || is_in id servers

abbrev Tables : Type 0
Tables = List (Str × TokenRow) × List Str

-- A row as it is read: a reference without its server is none.
checked : List Str → TokenRow → Option Str → TokenRow
checked servers row none = row
checked servers row (some id) = if is_in id servers then row else record row { server_id = none }

find_row : Str → Tables → Result TokenRow
unfolding checked is_in
find_row hash (rows, servers) = elim (lookup str_keys hash rows) [
  | none ↦ err no_rows
  | some row ↦ ok (checked servers row row.server_id)
]

bind_rows : ℕ → Str → Str → List (Str × TokenRow) → List (Str × TokenRow)
bind_rows now id row [] = []
bind_rows now id row ((hash, r) ∷ rows) =
    (hash, if str_eq r.id row then record r { used_at = some now; server_id = some id } else r)
    ∷ bind_rows now id row rows

bind_row : ℕ → Str → Str → Tables → Option Error × Tables
unfolding bind_rows is_in
bind_row now id row (rows, servers) =
    if is_in id servers
    then (none, (bind_rows now id row rows, servers))
    else (some (external (bytes "violates foreign key constraint")), (rows, servers))

abbrev toy : Postgres
toy = record {
  Db = Tables;
  insert_token = λ hash now db.
      (none, ((hash, record { id = hash; used_at = none; server_id = none }) ∷ db.0, db.1));
  find_token = find_row;
  bind_token = bind_row;
  upsert_server = λ id hostname db. (none, (db.0, id ∷ db.1));
}

checked_references :
    (servers : List Str) (row : TokenRow) (o : Option Str) (id : Str)
    → row.server_id ≡ o
    → (checked servers row o).server_id ≡ some id
    → is_in id servers ≡ true
unfolding checked
checked_references servers row none id p e = cc (p, e)
checked_references servers row (some id') id p e = ground (arith, p, e)

find_row_references :
    (hash : Str) (db : Tables) (row : TokenRow) (id : Str)
    → find_row hash db ≡ ok row
    → row.server_id ≡ some id
    → is_in id db.1 ≡ true
unfolding find_row
find_row_references hash (rows, servers) row id e p =
    elim (Option-cases (lookup str_keys hash rows)) [
      | inl q ↦ let k = rw (q, find_row) at e in cc k
      | inr (found, q) ↦
          let k = rw (q, find_row) at e in
          let same : checked servers found found.server_id ≡ row = cc k in
          checked_references servers found found.server_id id refl (rw same p)
    ]

toy_keyed : Keyed toy
unfolding bind_row
toy_keyed = record {
  server = λ id db. is_in id db.1;
  bind_fails = λ now id row db h. (external (bytes "violates foreign key constraint"), rw h);
  find_references = find_row_references;
  insert_adds_none = λ hash now id db. refl;
}

abbrev requests : List Request
requests = creates (ok (1 ∷ [])) 0 ∷ []

-- The token "01" is stored, and a registration with it fails.
serve-rejects_all_example :
    Fails toy toy_keyed
      (λ s. s)
      (authenticate toy
        (λ s. s)
        (bytes "01")
        (bytes "host")
        (7 ∷ [])
        5
        (serve toy (λ s. s) requests ([], [])))
      (serve toy (λ s. s) requests ([], []))
unfolding is_in toy_keyed
serve-rejects_all_example =
    serve-rejects_all toy toy_keyed (λ s. s) requests ([], []) (bytes "01") (bytes "host") (7 ∷ [])
      5 (λ id. refl)
