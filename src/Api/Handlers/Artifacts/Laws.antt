-- ===== src/Api/Handlers/Artifacts/Laws.antt =====
-- What is served as an artifact.
use agentenv_skills_hub.Api.State.{fetch_verified}
use agentenv_skills_hub.Index.Queries.Public.{public_version_by_name-IsPublic, IsPublic}
use agentenv_skills_hub.Api.State.Published.{fetch_verified-HasDigest, HasDigest}
use agentenv_skills_hub.Api.Handlers.{artifact_version}
use agentenv_skills_hub.Core.Model.{SkillVersionRecord}
use agentenv_skills_hub.Common.Text.{Text}
use agentenv_skills_hub.Api.Handlers.Artifacts.{
  content, pointer_of, artifact_bytes, db_artifact_response,
}
use agentenv_skills_hub.Api.State.App.{PgHubRepository}
use mathlib.Core.List.{Perm}
use agentenv_skills_hub.Index.Queries.{public_version_by_name, Row}
use agentenv_skills_hub.Index.Tables.{Db}
use agentenv_skills_hub.Api.Handlers.Reads.{Server}
use agentenv_skills_hub.Common.{
  ap, ◌∙◌, Bool, ◌≡◌, refl, arith, ok, some, inl, inr, true, false, List, ℕ, Option-cases,
  Result-cases,
}

module _ {F32 : Type 0} (server : Server F32) (db : Db)
    (arrange-perm : (rows : List Row) → Perm (server.arrange rows) rows)
    (repository : PgHubRepository) where
  artifact_bytes-HasDigest :
      (stored : SkillVersionRecord) (content_type : Text) (body : List ℕ)
      → artifact_bytes server db stored ≡ ok (content content_type body)
      → (content_type ≡ stored.artifact_media_type)
        × HasDigest server.runtime server.state.artifact_store (pointer_of server db stored) body
  unfolding artifact_bytes
  artifact_bytes-HasDigest stored content_type body h =
      elim (Result-cases
        (fetch_verified server.runtime server.state.artifact_store (pointer_of server db stored))) [
          | inl (fetched, e) ↦ (
            ground arith,
            fetch_verified-HasDigest server.runtime server.state.artifact_store
                (pointer_of server db stored) body (e ∙ ap ok (ground arith)),
          )
          | inr (x, e) ↦ absurd (ground arith)
        ]

  -- The bytes are those of a public version of that name.
  pub record IsServed (name artifact content_type : Text) (body : List ℕ) : Type 0 where
    pub version : Text
    pub stored : SkillVersionRecord
    pub asked : artifact_version artifact ≡ some (version, false)
    pub is_public :
        IsPublic server.runtime.crates server.arrange arrange-perm repository.session db name
          version stored
    pub typed : content_type ≡ stored.artifact_media_type
    pub verified :
        HasDigest server.runtime server.state.artifact_store (pointer_of server db stored) body

  served :
      (name artifact version content_type : Text) (signature : Bool) (body : List ℕ)
      (stored : SkillVersionRecord)
      → artifact_version artifact ≡ some (version, signature)
      → public_version_by_name server.runtime.crates server.arrange repository.session db name
          version
        ≡ ok stored
      → db_artifact_response server db repository name artifact ≡ ok (content content_type body)
      → (signature ≡ false) × (artifact_bytes server db stored ≡ ok (content content_type body))
  unfolding db_artifact_response
  served name artifact version content_type false body stored a p h = (refl, ground arith)
  served name artifact version content_type true body stored a p h =
      elim (Option-cases stored.signature_ed25519) [
        | inl e ↦ absurd (ground arith)
        | inr (s, e) ↦ absurd (ground arith)
      ]

  -- An artifact that the server takes from its repository is that of a public version of the name in
  -- the path, not yanked, and its bytes have the digest and its media type is the one with which
  -- that version was published. The server's ORDER BY keeps the rows.
  pub db_artifact_response-IsServed :
      (name artifact content_type : Text) (body : List ℕ)
      → db_artifact_response server db repository name artifact ≡ ok (content content_type body)
      → IsServed name artifact content_type body
  unfolding db_artifact_response
  db_artifact_response-IsServed name artifact content_type body h =
      elim (Option-cases (artifact_version artifact)) [
        | inl e ↦ absurd (ground arith)
        | inr ((version, signature), a) ↦
            elim (Result-cases (
              public_version_by_name server.runtime.crates server.arrange repository.session db name
                version)) [
                  | inr (x, e) ↦ absurd (ground arith)
                  | inl (stored, p) ↦
                      let (s, b) =
                        served name artifact version content_type signature body stored a p h in
                      let (t, v) = artifact_bytes-HasDigest stored content_type body b in
                      record {
                        version = version;
                        stored = stored;
                        asked = rw s at a;
                        is_public =
                            public_version_by_name-IsPublic server.runtime.crates server.arrange
                              arrange-perm repository.session db name version stored p;
                        typed = t;
                        verified = v;
                      }
                ]
      ]
