-- ===== src/Index/Migrations.antt =====
-- crates/hub-index/src/migrations.rs, and migrations/0001_init.sql that it runs. A database's catalog
-- is the list of what has been created in it.
pub mod Ensure
pub mod Laws
use agentenv_skills_hub.Common.State.{Run, lift, pure, ◌>>=◌, ◌>>◌}
use agentenv_skills_hub.Common.{ok, err, none, some}
use agentenv_skills_hub.Common.State.{lift, pure, Run}
use agentenv_skills_hub.Common.Text.{Text, text, text_eq}
use agentenv_skills_hub.Common.{
  err, ok, Result, not, if◌then◌else◌, ◌&&◌, Option, any, [], ◌∷◌, List, Bool, true, false,
}

pub data Kind : Type 0 where
  extension table index : Kind

-- What a statement creates: its name, and the lines of its definition.
pub record Object : Type 0 where
  pub kind : Kind
  pub name : Text
  pub definition : List Text

abbrev creates : Kind → Text → List Text → Object
creates kind name definition = record { kind = kind; name = name; definition = definition }

-- Tables and indexes share their names, extensions have their own.
abbrev pub is_relation : Kind → Bool
is_relation extension = false
is_relation table = true
is_relation index = true

abbrev pub same_space : Kind → Kind → Bool
same_space k l = if is_relation k then is_relation l else not (is_relation l)

-- Objects that cannot be there together.
abbrev pub same_name : Object → Object → Bool
same_name o p = same_space o.kind p.kind && text_eq o.name p.name

abbrev pub Catalog : Type 0
Catalog = List Object

-- CREATE … IF NOT EXISTS: what is there already stays as it is.
unfoldable pub create_if_not_exists : Object → Catalog → Catalog
unfolding any
create_if_not_exists o catalog = if any (same_name o) catalog then catalog else o ∷ catalog

unfoldable pub init_script : List Object
init_script =
    creates extension (text "vector") []
    ∷ creates table (text "skills") (
        text "id uuid PRIMARY KEY"
        ∷ text "namespace text NOT NULL"
        ∷ text "name text NOT NULL"
        ∷ text "description text"
        ∷ text "latest_version text"
        ∷ text "visibility text NOT NULL CHECK (visibility IN ('public', 'private', 'unlisted'))"
        ∷ text "created_at timestamptz NOT NULL"
        ∷ text "updated_at timestamptz NOT NULL"
        ∷ text "UNIQUE (namespace, name)"
        ∷ [])
    ∷ creates table (text "skill_versions") (
        text "id uuid PRIMARY KEY"
        ∷ text "skill_id uuid NOT NULL REFERENCES skills(id) ON DELETE CASCADE"
        ∷ text "version text NOT NULL"
        ∷ text "digest text NOT NULL"
        ∷ text "manifest_json jsonb NOT NULL"
        ∷ text "artifact_url text NOT NULL"
        ∷ text "artifact_media_type text NOT NULL"
        ∷ text "signature_ed25519 text"
        ∷ text "public_key_ed25519 text"
        ∷ text "sigstore_bundle_json jsonb"
        ∷ text "yanked_at timestamptz"
        ∷ text "yank_reason text"
        ∷ text "published_by text NOT NULL"
        ∷ text "created_at timestamptz NOT NULL"
        ∷ text "UNIQUE (skill_id, version)"
        ∷ [])
    ∷ creates table (text "skill_embeddings") (
        text "skill_id uuid NOT NULL REFERENCES skills(id) ON DELETE CASCADE"
        ∷ text "version_id uuid NOT NULL REFERENCES skill_versions(id) ON DELETE CASCADE"
        ∷ text "embedding vector(3)"
        ∷ text "embedding_model text NOT NULL"
        ∷ text "updated_at timestamptz NOT NULL"
        ∷ text "PRIMARY KEY (version_id, embedding_model)"
        ∷ [])
    ∷ creates table (text "permissions") (
        text "subject text NOT NULL"
        ∷ text "namespace text NOT NULL"
        ∷ text "role text NOT NULL CHECK (role IN ('reader', 'publisher', 'admin'))"
        ∷ text "created_at timestamptz NOT NULL"
        ∷ text "UNIQUE (subject, namespace, role)"
        ∷ [])
    ∷ creates table (text "api_tokens") (
        text "id uuid PRIMARY KEY"
        ∷ text "subject text NOT NULL"
        ∷ text "token_hash text NOT NULL UNIQUE"
        ∷ text "scopes text[] NOT NULL"
        ∷ text "expires_at timestamptz"
        ∷ text "created_at timestamptz NOT NULL"
        ∷ text "revoked_at timestamptz"
        ∷ [])
    ∷ creates table (text "webhook_subscriptions") (
        text "id uuid PRIMARY KEY"
        ∷ text "namespace text"
        ∷ text "kind text NOT NULL CHECK (kind IN ('generic', 'slack', 'discord', 'matrix'))"
        ∷ text "url text NOT NULL"
        ∷ text "secret_ref text"
        ∷ text "events text[] NOT NULL"
        ∷ text "enabled boolean NOT NULL"
        ∷ text "created_at timestamptz NOT NULL"
        ∷ [])
    ∷ creates table (text "webhook_deliveries") (
        text "id uuid PRIMARY KEY"
        ∷ text
            "subscription_id uuid NOT NULL REFERENCES webhook_subscriptions(id) ON DELETE CASCADE"
        ∷ text "event_type text NOT NULL"
        ∷ text "payload_json jsonb NOT NULL"
        ∷ text "status text NOT NULL CHECK (status IN ('pending', 'delivered', 'failed'))"
        ∷ text "attempts integer NOT NULL"
        ∷ text "next_attempt_at timestamptz"
        ∷ text "last_error text"
        ∷ text "created_at timestamptz NOT NULL"
        ∷ text "delivered_at timestamptz"
        ∷ [])
    ∷ creates index (text "idx_skill_versions_skill_version")
        (text "skill_versions(skill_id, version)" ∷ [])
    ∷ creates index (text "idx_skill_versions_yanked") (text "skill_versions(yanked_at)" ∷ [])
    ∷ creates index (text "idx_skills_namespace_name") (text "skills(namespace, name)" ∷ [])
    ∷ creates index (text "idx_skill_embeddings_vector")
        (text "skill_embeddings USING ivfflat (embedding vector_cosine_ops)" ∷ [])
    ∷ []

-- The statements that may fail.
pub data Step : Type 0 where
  begin lock commit : Step
  create : Object → Step

-- The transaction: what it sees, and what is committed.
pub record MigrationTx : Type 0 where
  pub view : Catalog
  pub shared : Catalog

abbrev attempted : Option Text → Result Text Unit
attempted none = ok tt
attempted (some message) = err message

-- `fault` says which statements fail, and `others` what other processes commit while this one waits
-- for the lock. Statements after it see what is committed then.
module _ (fault : Step → Option Text) (others : Catalog → Catalog) where
  abbrev reach : Step → Run MigrationTx Text Unit
  reach step = lift (attempted (fault step))

  abbrev wait : Run MigrationTx Text Unit
  wait tx = (ok tt, record { view = others tx.shared; shared = others tx.shared })

  unfoldable pub execute : List Object → Run MigrationTx Text Unit
  unfolding create_if_not_exists
  execute [] = pure tt
  execute (o ∷ objects) = do
    reach (create o)
    (λ tx. (ok tt, record tx { view = create_if_not_exists o tx.view }))
    execute objects

  abbrev migrate : Run MigrationTx Text Unit
  migrate = do reach begin; wait; reach lock; execute init_script; reach commit

  -- The view becomes what is committed, or is dropped with the transaction.
  abbrev finished : Result Text Unit × MigrationTx → Result Text Unit × Catalog
  finished (ok u, tx) = (ok tt, tx.view)
  finished (err e, tx) = (err e, tx.shared)

  unfoldable pub run_migrations : Run Catalog Text Unit
  unfolding execute init_script
  run_migrations catalog = finished (migrate (record { view = catalog; shared = catalog }))
