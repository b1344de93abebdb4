-- ===== src/Tests/Xtask.antt =====
-- The tasks on a small file system.
use cockpitctl.Base.{true, ◌≡◌, refl, sym, ap, inl}
use cockpitctl.Ingest.Result.{ok}
use cockpitctl.Xtask.Schemas.{validate_schemas}
use cockpitctl.Xtask.Schemas.Fixed.{validate_schemas_idempotent}
use cockpitctl.Xtask.Sync.{schema_sync_check, schema_sync_fix}
use cockpitctl.Xtask.Sync.Restored.{schema_sync_fix-schema_sync_check}
use cockpitctl.Xtask.Samples.{
  tree, tools, Content, store, content, copy_reads, copy_source, copy_dest,
}

abbrev fixed : Content
unfolding schema_sync_fix
fixed = (schema_sync_fix store content).1

fix_run : schema_sync_fix store content ≡ (ok tt, fixed)
unfolding schema_sync_fix
fix_run = refl

schema_sync_fix-schema_sync_check_example : schema_sync_check store fixed ≡ ok tt
schema_sync_fix-schema_sync_check_example =
    schema_sync_fix-schema_sync_check store (λ m w w' mm. copy_reads m w w')
      (λ m n w w' mm mn. copy_source m n w w') (λ m n w w' mm mn. copy_dest m n w w') content fixed
      fix_run

validate_run : validate_schemas tree tools "schemas" true "{ }" ≡ (ok tt, "{}\n")
unfolding validate_schemas
validate_run = refl

validate_schemas_idempotent_example :
    validate_schemas tree tools "schemas" true "{}\n" ≡ (ok tt, "{}\n")
validate_schemas_idempotent_example =
    validate_schemas_idempotent tree tools (λ p t w w' h. ap ok (sym (ap (λ k. k.1) h)))
      (λ p q t w w' h. inl (ap ok (sym (ap (λ k. k.1) h)))) "schemas" "{ }" "{}\n"
      (λ p t v s m r k e. refl) validate_run
