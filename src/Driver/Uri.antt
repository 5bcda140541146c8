-- ===== src/Driver/Uri.antt =====
-- driver/driver.go: Driver.Open with its engines, and parseConnectionURI. time.ParseDuration is a
-- parameter.
use ramsql.Base.{ℕ, ◌==◌, Option, none, some, List, [], ◌∷◌, ◌++◌, length, if◌then◌else◌}
use ramsql.Base.Bytes.{Bytes, codes, str_eq}
use ramsql.Base.Dict
use ramsql.Base.Dict.{Dict, lookup}
use ramsql.Base.Outcome.{Outcome, ok, err, panic, blocked, malformed, ◌>>=◌}
use ramsql.Store.{Heap, new_engine}

-- connConf
pub record ConnConf : Type 0 where
  pub proto : Bytes
  pub addr : Bytes
  pub laddr : Bytes
  pub db : Bytes
  pub password : Bytes
  pub user : Bytes
  pub timeout : ℕ

unfoldable pub no_conf : ConnConf
no_conf = record {
  proto = [];
  addr = [];
  laddr = [];
  db = [];
  password = [];
  user = [];
  timeout = 0;
}

-- strings.SplitN(s, sep, 2) where the separator, one byte, is there
unfoldable pub cut : ℕ → Bytes → Option (Bytes × Bytes)
cut sep [] = none
cut sep (c ∷ s) =
    let rest = cut sep s in
    if c == sep then some ([], s) else elim rest [ none ↦ none | some (a, b) ↦ some (c ∷ a, b) ]

-- strings.Split(s, sep): the first part, and the others
unfoldable pub split : ℕ → Bytes → Bytes × List Bytes
split sep [] = ([], [])
split sep (c ∷ s) =
    let (a, others) = split sep s in if c == sep then ([], a ∷ others) else (c ∷ a, others)

-- One turn of the loop over the options
unfoldable pub option : (Bytes → Option ℕ) → Bytes → ConnConf → Outcome ConnConf
unfolding cut
option duration o c =
    let (k, v) : Bytes × Bytes = elim (cut b'=' o) [ none ↦ (o, codes "true") | some kv ↦ kv ] in
    if str_eq k (codes "laddr")
    then ok (record c { laddr = v })
    else if str_eq k (codes "timeout")
    then elim (duration v) [ none ↦ err malformed | some t ↦ ok (record c { timeout = t }) ]
    else err malformed

unfoldable pub options : (Bytes → Option ℕ) → List Bytes → ConnConf → Outcome ConnConf
unfolding option
options duration [] c = ok c
options duration (o ∷ os) c = option duration o c >>= options duration os

-- The database part of the URI
unfoldable pub database_part : Bytes → ConnConf → ConnConf
unfolding cut
database_part s c = elim (cut b'/' s) [
  | none ↦ c
  | some (db, rest) ↦ elim (cut b'/' rest) [
    | none ↦ c
    | some (user, password) ↦ record c { db = db; user = user; password = password }
  ]
]

-- parseConnectionURI
unfoldable pub parse_connection_uri : (Bytes → Option ℕ) → Bytes → Outcome ConnConf
unfolding cut split options database_part
parse_connection_uri duration uri =
    let named : Bytes = elim uri [ [] ↦ codes "default" | c ∷ s ↦ c ∷ s ] in
    elim (cut b'*' named) [
      | none ↦ ok (database_part named no_conf)
      | some (protocol, rest) ↦ elim (cut b':' protocol) [
        | none ↦ ok no_conf
        | some (proto, address) ↦
            (let (addr, opts) = split b',' address in
              options duration opts (record no_conf { proto = proto; addr = addr }) >>= λ c.
              ok (database_part rest c))
      ]
    ]

-- Driver: the engines by their data source names, as positions in the list of all heaps
pub record Driver : Type 0 where
  pub engines : Dict ℕ
  pub heaps : List Heap

-- Open: the position of the engine of the connection. The name is the text as it is given: the empty one
-- is not the one called default.
unfoldable pub open_engine : (Bytes → Option ℕ) → Bytes → Driver → Outcome ℕ × Driver
unfolding parse_connection_uri lookup Dict.insert
open_engine duration dsn d = elim (parse_connection_uri duration dsn) [
  | ok conf ↦ elim (lookup dsn d.engines) [
    | some e ↦ (ok e, d)
    | none ↦ (
      ok (length d.heaps),
      record {
        engines = Dict.insert dsn (length d.heaps) d.engines;
        heaps = d.heaps ++ new_engine ∷ [];
      },
    )
  ]
  | err e ↦ (err e, d)
  | panic ↦ (panic, d)
  | blocked ↦ (blocked, d)
]
