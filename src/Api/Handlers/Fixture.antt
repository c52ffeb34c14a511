-- ===== src/Api/Handlers/Fixture.antt =====
-- The skill that crates/hub-api/src/handlers.rs serves where there is no repository.
use agentenv_skills_hub.Api.Handlers.{ApiResult, internal}
use agentenv_skills_hub.Common.Text.{text, trim, Text}
use agentenv_skills_hub.Core.Model.{CompatibilityIndex}
use agentenv_skills_hub.Storage.Digest.{hex}
use agentenv_skills_hub.Common.{◌++◌, map_err, List, Result, ℕ, ok, some, ◌>>=◌, [], ◌∷◌}

-- The archive of the fixture is built by the crates tar and zstd, with their messages.
pub record Archive : Type 1 where
  pub Builder : Type 0
  pub Encoder : Type 0
  pub new : Result Text Builder
  pub append_data : Builder → Text → List ℕ → Result Text Builder
  pub into_inner : Builder → Result Text Encoder
  pub finish : Encoder → Result Text (List ℕ)

-- The archiver, and the two files of tests/fixtures/code-review-skill.
pub record Fixtures : Type 1 where
  pub archive : Archive
  pub skill_yaml : List ℕ
  pub skill_md : List ℕ

-- `format!("sha256:{:x}", Sha256::digest(bytes))`
unfoldable pub fixture_digest : (List ℕ → List ℕ) → List ℕ → Text
unfolding hex
fixture_digest sha256 content = text "sha256:" ++ hex (sha256 content)

abbrev pub repeat_text : ℕ → Text → Text
repeat_text ℕ.zero s = []
repeat_text (ℕ.suc n) s = s ++ repeat_text n s

abbrev pub fixture_signature : Text
fixture_signature = repeat_text 64 (text "aa") ++ 10 ∷ []

module _ (fixtures : Fixtures) where
  abbrev pub append_bytes :
      fixtures.archive.Builder → Text → List ℕ → ApiResult fixtures.archive.Builder
  append_bytes builder path content =
      map_err (λ source. internal (text "failed to append fixture file: " ++ source))
        (fixtures.archive.append_data builder path content)

  unfoldable pub fixture_tarball_bytes : ApiResult (List ℕ)
  fixture_tarball_bytes = do
    builder ←
        map_err (λ source. internal (text "failed to create zstd encoder: " ++ source))
          fixtures.archive.new
    with_yaml ← append_bytes builder (text "skill.yaml") fixtures.skill_yaml
    with_md ← append_bytes with_yaml (text "SKILL.md") fixtures.skill_md
    encoder ←
        map_err (λ source. internal (text "failed to finish tar: " ++ source))
          (fixtures.archive.into_inner with_md)
    map_err (λ source. internal (text "failed to finish zstd: " ++ source))
        (fixtures.archive.finish encoder)

  -- With `trim` of the signature's line.
  unfoldable pub fixture_index : (List ℕ → List ℕ) → Text → ApiResult CompatibilityIndex
  unfolding fixture_tarball_bytes fixture_digest trim
  fixture_index sha256 registry = do
    content ← fixture_tarball_bytes
    ok (record {
      skills =
          record {
            name = text "code-review";
            version = text "1.2.0";
            description = some (text "Review code changes");
            registry = registry;
            digest = some (fixture_digest sha256 content);
            signature_ed25519 = some (trim fixture_signature);
            public_key_ed25519 = some (repeat_text 32 (text "bb"));
          }
          ∷ [];
    })
