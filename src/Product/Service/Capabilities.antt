-- ===== src/Product/Service/Capabilities.antt =====
-- `ReplaceCapabilitySet` of platform/backend/internal/modules/product/product.go.
use unified_software_commerc.Prelude.{
  ℕ, ◌^◌, String, Bool, not, ◌&&◌, List, [], ◌∷◌, leb, ◌==◌, Result, ok, err, ◌>>=◌, ◌>>◌, guard,
}
use unified_software_commerc.Prelude.Text.{is_digest}
use unified_software_commerc.Prelude.Int64.{add_one}
use unified_software_commerc.Product.Model.{
  ProductError, untrusted_change_plan, CapabilityItem, CapabilitySet, TrustedCapabilityChangePlan,
  ProductEvent, summary_text, summary_number,
}
use unified_software_commerc.Product.Store.{ProductTables, once}
use unified_software_commerc.Product.Store.Capabilities.{replace_set_body}
use unified_software_commerc.Product.Checks.{normalize_capability_items}
use unified_software_commerc.Product.Service.{
  ProductServices, make_product_event, success_payload, identified, make_receipt_key,
}

pub record ReplaceCapabilitySetCommand : Type 0 where
  pub plan : TrustedCapabilityChangePlan
  pub expected_version : ℕ
  pub actor_id : String
  pub idempotency_key : String
  pub trace_id : String

unfoldable pub same_plan : TrustedCapabilityChangePlan → TrustedCapabilityChangePlan → Bool
same_plan a b =
    a.product_id == b.product_id
    && a.source_plan_id == b.source_plan_id
    && a.catalog_revision == b.catalog_revision
    && a.catalog_snapshot_sha256 == b.catalog_snapshot_sha256

unfoldable pub valid_replacement : ReplaceCapabilitySetCommand → Bool
unfolding identified
valid_replacement command =
    not (command.plan.product_id == "")
    && not (command.plan.source_plan_id == "")
    && not (command.plan.catalog_revision == "")
    && is_digest command.plan.catalog_snapshot_sha256
    && identified command.actor_id command.idempotency_key command.trace_id
    && not (leb (2 ^ 63) command.expected_version)

module _ (env : ProductServices) where
  -- The plan that the verifier resolves; an error of the verifier makes it untrusted.
  unfoldable pub trusted_plan :
      TrustedCapabilityChangePlan → Result ProductError TrustedCapabilityChangePlan
  unfolding same_plan
  trusted_plan plan = elim (env.resolve_product_capability_change plan) [
    | err problem ↦ err untrusted_change_plan
    | ok resolved ↦ guard (same_plan resolved plan) untrusted_change_plan >> ok resolved
  ]

  unfoldable pub new_set :
      ReplaceCapabilitySetCommand → List CapabilityItem → String → ProductEvent → CapabilitySet
  unfolding add_one
  new_set command items set_id event = record {
    capability_set_id = set_id;
    product_id = command.plan.product_id;
    version = add_one command.expected_version;
    source_plan_id = command.plan.source_plan_id;
    catalog_revision = command.plan.catalog_revision;
    catalog_snapshot_sha256 = command.plan.catalog_snapshot_sha256;
    content_sha256 = env.digest (env.marshal_items items);
    created_by = command.actor_id;
    created_at = env.now;
    items = items;
    audit_id = event.payload.audit_id;
  }

  unfoldable pub write_replace_capability_set :
      ReplaceCapabilitySetCommand
      → TrustedCapabilityChangePlan
      → List CapabilityItem
      → String
      → String
      → ProductTables
      → Result ProductError (CapabilitySet × ProductTables)
  unfolding valid_replacement trusted_plan new_set make_product_event success_payload
      make_receipt_key add_one
  write_replace_capability_set command plan items set_id event_id t =
      let event =
        make_product_event event_id plan.product_id "product.capabilities_changed.v1" env.now (
          success_payload command.actor_id "product.manage" plan.product_id
            "product.capabilities_changed" "product_capability_set" set_id command.trace_id "high"
            (("version", summary_number (add_one command.expected_version))
              ∷ ("source_plan_id", summary_text plan.source_plan_id)
              ∷ [])) in
      once env.encode_set env.decode_set
        (make_receipt_key env "product.replace_capability_set" command.actor_id plan.product_id
          command.idempotency_key
          (env.marshal (
            ("ProductID", summary_text plan.product_id)
            ∷ ("SourcePlanID", summary_text plan.source_plan_id)
            ∷ ("CatalogRevision", summary_text plan.catalog_revision)
            ∷ ("CatalogSnapshotSHA256", summary_text plan.catalog_snapshot_sha256)
            ∷ ("Items", summary_text (env.marshal_items items))
            ∷ ("ExpectedVersion", summary_number command.expected_version)
            ∷ [])))
        (replace_set_body (new_set (record command { plan = plan }) items set_id event)
          command.expected_version event)
        t

  unfoldable pub replace_capability_set :
      ReplaceCapabilitySetCommand
      → ProductTables
      → Result ProductError (CapabilitySet × ProductTables)
  replace_capability_set command t =
      guard (valid_replacement command) untrusted_change_plan
      >> trusted_plan command.plan
      >>= λ plan. normalize_capability_items env.normalize_policy plan.items >>= λ items.
          env.new_id "pcset_" >>= λ set_id. env.new_id "evt_" >>= λ event_id.
          write_replace_capability_set command plan items set_id event_id t
