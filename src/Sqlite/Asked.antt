-- ===== src/Sqlite/Asked.antt =====
-- The requests for properties, answered by the SQLite backend.
use dazeus_core.Base.{◌≡◌, refl, false, List, ◌∷◌, is_empty}
use dazeus_core.Text.{Str, lit, is, str_eq}
use dazeus_core.Json.{Jansson, c_str}
use dazeus_core.Requests.{returns, Request, Result, respond, succeed, respond_text}
use dazeus_core.Requests.Storage.{
  Scope, property_scope, answer_property, get_property, set_property, set_given, use_property,
  on_property,
}
use dazeus_core.Sqlite.{Faults, sqlite}
use dazeus_core.Sqlite.Rows.{Tables}
use dazeus_core.Sqlite.Stored.{AllWell}
use dazeus_core.Sqlite.RoundTrip.{with_row, set_property-well, property-with_row}

-- a request for a property
abbrev pub ask : Jansson → Faults → List Str → List Str → Request Tables → Result Tables
ask j f = on_property j (sqlite f)

-- the request when its answer is begun, on the tables that are given
abbrev pub did_property : Jansson → Request Tables → Tables → Request Tables
did_property j r t = respond_text j "did" (lit "property") (record r { database = t })

module _ (j : Jansson) (f : Faults) (well : AllWell f) where
  abbrev stored : Tables → Scope → Str → Str → Tables
  stored t scope k v = with_row t k v scope.0 scope.1 scope.2

  set_property-sqlite :
      (scope : Scope) (k v : Str) (r : Request Tables)
      → is_empty v ≡ false
      → set_property j (sqlite f) scope k v r
        ≡ (succeed j (record r { database = stored r.database scope k v }), returns tt)
  unfolding set_property sqlite
  set_property-sqlite (n, rc, s) k v r e =
      rw (set_property-well f well r.database k v n rc s e) refl

  get_property-sqlite :
      (scope : Scope) (k v : Str) (r : Request Tables) (t : Tables)
      → get_property j (sqlite f) scope k (record r { database = stored t scope k v })
        ≡ answer_property j (sqlite f) k (c_str v) (record r { database = stored t scope k v })
  unfolding get_property sqlite
  get_property-sqlite (n, rc, s) k v r t = rw (property-with_row f well t k v n rc s) refl

  -- If no call of SQLite fails, the request of a plugin to set a property to a value that is not empty
  -- succeeds, and the next request for the property, of whichever plugin, in the same scope, is
  -- answered with that value, up to its first NUL, from the tables that the first one left.
  pub on_property-on_property :
      (scope rest rest' : List Str) (k v : Str) (r r' : Request Tables)
      → is_empty v ≡ false
      → (ask j f scope (lit "set" ∷ k ∷ v ∷ rest) r ≡ (
        succeed j (did_property j r (ask j f scope (lit "set" ∷ k ∷ v ∷ rest) r).0.database),
        returns tt,
      ))
        × (ask j f scope
              (lit "get" ∷ k ∷ rest')
              (record r' { database = (ask j f scope (lit "set" ∷ k ∷ v ∷ rest) r).0.database })
            ≡ answer_property j
                (sqlite f)
                k
                (c_str v)
                (did_property j r' (ask j f scope (lit "set" ∷ k ∷ v ∷ rest) r).0.database))
  unfolding on_property use_property set_given lit str_eq is respond_text respond succeed
  on_property-on_property scope rest rest' k v r r' e =
      let asked = respond_text j "did" (lit "property") in
      let place = property_scope scope in
      rw (set_property-sqlite place k v (asked r) e)
        (refl, get_property-sqlite place k v (asked r') r.database)
