-- ===== src/Oidc/Clients/Lifecycle.antt =====
-- Provision, RevokeClient and VerifyClientSecret of internal/auth/oidc/clients.go.
use nass.Common.{
  ℕ, ◌≡◌, refl, ap, ◌∙◌, Bool, true, false, not, Option, none, some, List, Text, ◌==◌, text_eq_test,
  nat_eq_test, any_of, keep_if, text_eq_refl,
}
use nass.Db.{Db, ClientRow}
use nass.Db.Rows.{
  NoRow, find_if-any_of, find_if-append_none, delete_where-NoRow, keep_if-delete_where,
}
use nass.Db.Monad.{World, ok, ◌>>=◌, sql}
use nass.Db.Ensures.{
  ensures-tx_known, Holds, Holds-ok, Ensures, Anything, Ended, ensures-pure, ensures-fail,
  ensures-given, ensures-branch, ensures-from, ensures-query, ensures-bind, ensures-now,
  ensures-exec, ensures-random, ensures-exec_checked, violation-none, ensures-map_error,
}
use nass.Db.Monad.{unique_error}
use nass.Users.{Bcrypt}
use nass.Users.Password.{generate_hash-ensures}
use nass.Oidc.Clients.{
  ProvisionResult, upsert_app, new_client, insert_client, client_violation, client_error,
  delete_access_of_client, delete_refresh_of_client, delete_client_row, client_of_app, delete_found,
  delete_client, find_client, provision, verify_client_secret,
}

-- The client of the app and its tokens are gone; those of every other client are as they were.
abbrev pub IsDeleted : ClientRow → Db → Db → Type 0
IsDeleted c before db =
    NoRow (λ x. x.client_id == c.client_id) db.oidc_clients
    × NoRow (λ t. t.client_id == c.client_id) db.oidc_access_tokens
    × NoRow (λ t. t.client_id == c.client_id) db.oidc_refresh_tokens
    × (keep_if (λ x. not (x.client_id == c.client_id)) db.oidc_clients
        ≡ keep_if (λ x. not (x.client_id == c.client_id)) before.oidc_clients)
    × (keep_if (λ t. not (t.client_id == c.client_id)) db.oidc_access_tokens
        ≡ keep_if (λ t. not (t.client_id == c.client_id)) before.oidc_access_tokens)
    × (keep_if (λ t. not (t.client_id == c.client_id)) db.oidc_refresh_tokens
        ≡ keep_if (λ t. not (t.client_id == c.client_id)) before.oidc_refresh_tokens)

abbrev deleted : Text → Db → Db
deleted client_id db =
    delete_client_row client_id
      (delete_refresh_of_client client_id (delete_access_of_client client_id db))

deleted-IsDeleted :
    (c : ClientRow) (before db : Db) → db ≡ deleted c.client_id before → IsDeleted c before db
deleted-IsDeleted c before db e = rw e (
  delete_where-NoRow _ before.oidc_clients,
  delete_where-NoRow _ before.oidc_access_tokens,
  delete_where-NoRow _ before.oidc_refresh_tokens,
  keep_if-delete_where _ before.oidc_clients,
  keep_if-delete_where _ before.oidc_access_tokens,
  keep_if-delete_where _ before.oidc_refresh_tokens,
)

module _ (app_name : Text) where
  -- `true` where the app had a client.
  abbrev pub IsDeletion : Bool → Db → Db → Type 0
  IsDeletion true before db =
      (c : ClientRow) × (client_of_app app_name before ≡ some c) × IsDeleted c before db
  IsDeletion false before db = (client_of_app app_name before ≡ none) × (db ≡ before)

  delete_found-ensures :
      (n : ℕ) (before : Db) (row : Option ClientRow)
      → client_of_app app_name before ≡ row
      → Ensures n
          (λ db. db ≡ before)
          (delete_found row)
          (Ended (λ found db. IsDeletion found before db) before)
          Anything
  delete_found-ensures n before none e = ensures-pure _ (λ db p. (e, refl))
  delete_found-ensures n before (some c) e =
      ensures-exec _ _ (λ db. db ≡ delete_access_of_client c.client_id before)
        (λ db p. ap (delete_access_of_client c.client_id) p) (λ db p. tt)
        (ensures-exec _ _
          (λ db.
            db ≡ delete_refresh_of_client c.client_id (delete_access_of_client c.client_id before))
          (λ db p. ap (delete_refresh_of_client c.client_id) p) (λ db p. tt)
          (ensures-exec _ _ (λ db. db ≡ deleted c.client_id before)
            (λ db p. ap (delete_client_row c.client_id) p) (λ db p. tt)
            (ensures-pure _ (λ db p. (c, e, deleted-IsDeleted c before db p)))))

  pub delete_client-ensures :
      (n : ℕ) (before : Db)
      → Ensures n
          (λ db. db ≡ before)
          (delete_client app_name)
          (λ found db. IsDeletion found before db)
          (λ db. db ≡ before)
  unfolding delete_client
  delete_client-ensures n before =
      ensures-tx_known _ refl (ensures-query _ _ tt λ row e. delete_found-ensures n before row e)

  -- The deletion of an app's client is done whole or not at all: an error leaves the database as it
  -- was. Where the app has a client, the client and all its tokens are gone, and the clients and
  -- tokens with another client id are as they were; where it has none, nothing is changed.
  delete_client-Holds :
      (w : World)
      → Holds w.now
          (λ found db. IsDeletion found w.db db)
          (λ db. db ≡ w.db)
          (delete_client app_name w)
  delete_client-Holds w = (delete_client-ensures w.now w.db).at w refl refl

module _ (bcrypt : Bcrypt) (app_name : Text) (uris : List Text) where
  -- A client of its own for the app, whose secret the stored hash accepts.
  abbrev pub IsProvisioned : ℕ → Db → ProvisionResult → Db → Type 0
  IsProvisioned now before r db =
      (hash : Text) × (bcrypt.accepts hash r.client_secret ≡ true)
      × (r.app_name ≡ app_name)
      × (client_of_app app_name before ≡ none)
      × (find_client r.client_id before ≡ none)
      × (find_client r.client_id db ≡ some (new_client r.client_id app_name hash uris))
      × (db
          ≡ insert_client (new_client r.client_id app_name hash uris)
              (upsert_app now app_name before))

  provisioned :
      (client_id hash : Text) (now : ℕ) (before db : Db)
      → db ≡ upsert_app now app_name before
      → client_violation (new_client client_id app_name hash uris) db ≡ none
      → let db' = insert_client (new_client client_id app_name hash uris) db in
        (client_of_app app_name before ≡ none)
        × (find_client client_id before ≡ none)
        × (find_client client_id db' ≡ some (new_client client_id app_name hash uris))
        × (db'
            ≡ insert_client
                (new_client client_id app_name hash uris)
                (upsert_app now app_name before))
  provisioned client_id hash now before db e v =
      let new_id : any_of (λ x. x.client_id == client_id) before.oidc_clients ≡ false =
        (violation-none _ unique_error _ (rw e at v)).0 in
      let rest = (violation-none _ unique_error _ (rw e at v)).1 in
      let new_app : any_of (λ x. x.app_name == app_name) before.oidc_clients ≡ false =
        (violation-none _ unique_error _ rest).0 in
      (
        find_if-any_of _ before.oidc_clients new_app,
        find_if-any_of _ before.oidc_clients new_id,
        rw e (
            find_if-append_none _ before.oidc_clients _
              (find_if-any_of _ before.oidc_clients new_id)
            ∙ rw (text_eq_refl client_id) refl),
        ap (insert_client _) e,
      )

  pub provision-ensures :
      (n : ℕ) (before : Db)
      → Ensures n
          (λ db. db ≡ before)
          (provision bcrypt app_name uris)
          (IsProvisioned n before)
          (λ db. db ≡ before)
  unfolding provision
  provision-ensures n before =
      ensures-branch _ _ _ (λ t. ensures-fail _ (λ db p. p))
        λ t.
          ensures-branch _ _ _ (λ t. ensures-fail _ (λ db p. p))
            λ t.
              ensures-random _ (λ db p. p)
                λ client_id.
                  ensures-random _ (λ db p. p)
                    λ secret.
                      ensures-bind _ _ _ (generate_hash-ensures bcrypt secret n (λ db. db ≡ before))
                        λ hash.
                          ensures-given {F = bcrypt.accepts hash secret ≡ true} _ (λ db p. p.0)
                            λ accepted.
                              ensures-from _ _ (λ db p. p.1)
                                (ensures-tx_known _ refl (
                                  ensures-now _ (
                                    ensures-exec _ _ (λ db. db ≡ upsert_app n app_name before)
                                      (λ db p. ap (upsert_app n app_name) p) (λ db p. tt)
                                      (ensures-bind
                                        (λ _ db.
                                          (client_of_app app_name before ≡ none)
                                          × (find_client client_id before ≡ none)
                                          × (find_client client_id db
                                              ≡ some (new_client client_id app_name hash uris))
                                          × (db
                                              ≡ insert_client
                                                  (new_client client_id app_name hash uris)
                                                  (upsert_app n app_name before)))
                                        _ _
                                        (ensures-map_error client_error _ (
                                          ensures-exec_checked _ _
                                            (λ db p v. provisioned client_id hash n before db p v)
                                            (λ db p. tt)))
                                        λ _. ensures-pure _ (λ db (no_client, new, found, e).
                                          (hash, accepted, refl, no_client, new, found, e))))))

  pub provision-Holds :
      (w : World)
      → Holds w.now (IsProvisioned w.now w.db) (λ db. db ≡ w.db) (provision bcrypt app_name uris w)
  provision-Holds w = (provision-ensures w.now w.db).at w refl refl

  check_found :
      (client_id secret : Text) (c : ClientRow) (w : World)
      → find_client client_id w.db ≡ some c
      → bcrypt.accepts c.client_secret_hash secret ≡ true
      → ((n : ℕ) → w.fault n ≡ false)
      → (verify_client_secret bcrypt client_id secret w).0 ≡ ok tt
  unfolding verify_client_secret sql ◌>>=◌
  check_found client_id secret c w found accepted h = rw (h w.calls, found, accepted) refl

  -- The secret that Provision returns opens its client: VerifyClientSecret accepts it, as long as the
  -- rows are as Provision left them and the query does not fail.
  pub verify_client_secret-provision :
      (w w' later : World) (r : ProvisionResult)
      → provision bcrypt app_name uris w ≡ (ok r, w')
      → later.db ≡ w'.db
      → ((n : ℕ) → later.fault n ≡ false)
      → (verify_client_secret bcrypt r.client_id r.client_secret later).0 ≡ ok tt
  verify_client_secret-provision w w' later r done same h =
      let (hash, accepted, _, _, _, found, _) = Holds-ok _ _ _ _ r w' (provision-Holds w) done in
      check_found r.client_id r.client_secret (new_client r.client_id app_name hash uris) later
        (rw same found) accepted h
