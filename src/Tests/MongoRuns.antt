-- ===== src/Tests/MongoRuns.antt =====
-- Runs of the MongoDB backend.
use dazeus_core.Base.{◌≡◌, refl, true, false, []}
use dazeus_core.Text.{lit}
use dazeus_core.Json.{c_str}
use dazeus_core.Run.{undefined_behaviour}
use dazeus_core.Requests.{returns, throws, crashes}
use dazeus_core.Mongo.{Driver, property, set_property, property_keys}
use dazeus_core.Mongo.Permissions.{set_permission, ask_permission, open_mongo}
use dazeus_core.Mongo.Shadowed.{Works, no_documents, two_scopes_lem}
use dazeus_core.Mongo.Granted.{ask_permission-set_permission}

-- every regular expression matches, and no call fails
abbrev driver : Driver
driver = record {
  connects = true;
  reconnects = true;
  indexes = true;
  error_text = [];
  matches = λ pattern text. true;
  query_fails = λ selector. false;
  empty_packet = false;
  cursor_fails = λ selector. false;
  data_fails = λ document. false;
  update_fails = λ selector. false;
  delete_fails = λ selector. false;
}

driver-Works : Works driver
driver-Works = record {
  query = λ selector. refl;
  cursor = λ selector. refl;
  reading = λ document. refl;
  update = λ selector. refl;
}

two_scopes_lem_example :
    ((property driver
        (set_property driver
          (set_property driver no_documents (lit "k") (lit "v") [] [] []).0
          (lit "k")
          (lit "w")
          (lit "n")
          []
          []).0
        (lit "k")
        []
        []
        []).1
      ≡ returns (c_str (c_str (lit "w"))))
    × ((property_keys driver
          (set_property driver
            (set_property driver no_documents (lit "k") (lit "v") [] [] []).0
            (lit "k")
            (lit "w")
            (lit "n")
            []
            []).0
          (lit "k")
          []
          []
          []).1
        ≡ crashes undefined_behaviour)
unfolding lit
two_scopes_lem_example =
    two_scopes_lem driver driver-Works (lit "k") (lit "v") (lit "w") (lit "n") refl refl refl refl

-- a query without results is reported as a failure
no_keys :
    (property_keys driver no_documents (lit "k") [] [] []).1
    ≡ throws (lit "Failed to execute query")
unfolding property_keys lit
no_keys = refl

ask_permission-set_permission_example :
    ((set_permission driver no_documents false (lit "kick") (lit "n") (lit "#a") (lit "bob")).1
      ≡ returns tt)
    × ((ask_permission driver
          (set_permission driver no_documents false (lit "kick") (lit "n") (lit "#a") (lit "bob")).0
          (lit "kick")
          (lit "n")
          (lit "#a")
          (lit "bob")
          true).1
        ≡ returns false)
unfolding lit
ask_permission-set_permission_example =
    ask_permission-set_permission driver driver-Works no_documents false true (lit "kick") (lit "n")
      (lit "#a") (lit "bob") refl refl

opened : open_mongo driver ≡ returns tt
unfolding open_mongo
opened = refl
