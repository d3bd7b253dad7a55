-- ===== src/Iot/Status.antt =====
-- What updateDeviceStatus of fabric/chaincode/supplychain/iotIntegration.js records.
use sustainable_fashion_chai.Prelude.{
  ℕ, String, ◌≡◌, refl, ◌∙◌, ap, true, false, some, List, [], ◌∷◌, ◌==◌,
}
use sustainable_fashion_chai.Json.{Value, str, arr, obj, Items, Fields, get, push_item}
use sustainable_fashion_chai.Json.Laws.{get-set}
use sustainable_fashion_chai.Fabric.{document, ok, Effect, put, Env}
use sustainable_fashion_chai.Fabric.Returns.{
  Returns-pure, Returns-lift, Returns-ensure, Returns-put, Returns-load, outcome_of,
}
use sustainable_fashion_chai.Contract.Kinds.{push_onto_lem}
use sustainable_fashion_chai.Iot.{valid_statuses, includes, device_key, update_device_status}
use sustainable_fashion_chai.Iot.Devices.{get-push_onto}

-- The device `reply`, stored under `key`: its status is valid, and its history ends with an entry
-- whose `from` and `to` are both that status; the rest is as in `d`.
pub record Updated (key status : String) (d reply : Fields) (w : List Effect) : Type 0 where
  pub entry : Fields
  pub earlier : Items
  pub writes : w ≡ put key reply ∷ []
  pub valid : includes status valid_statuses ≡ true
  pub status_set : get "status" reply ≡ str status
  pub history : get "statusHistory" reply ≡ arr (push_item (obj entry) earlier)
  pub from : get "from" entry ≡ str status
  pub to : get "to" entry ≡ str status
  pub kept :
      (i : String)
      → ("status" == i) ≡ false
      → ("statusHistory" == i) ≡ false
      → get i reply ≡ get i d

module _ (env : Env) (iso : ℕ → String) (millis : String) (stringify : Value → String) where
  from_entry :
      (status : Value) (more : Fields) → get "from" (Fields.field "from" status more) ≡ status
  unfolding get
  from_entry status more = refl

  to_entry :
      (a status : Value) (more : Fields)
      → get "to" (Fields.field "from" a (Fields.field "to" status more)) ≡ status
  unfolding get
  to_entry a status more = refl

  -- When updateDeviceStatus returns, it has stored the device with the new status, which is one of
  -- the four valid ones; the entry that it adds to the history has the new status as `from` and as
  -- `to`, whatever the status was before; no other property of the device changes.
  pub update_device_status-Updated :
      (device_id status reason : String) (reply : Fields) (w : List Effect)
      → update_device_status env iso millis stringify device_id status reason [] ≡ ok (reply, w)
      → (d : Fields) × (env.read (device_key device_id) ≡ some (document d))
        × Updated (device_key device_id) status d reply w
  unfolding update_device_status
  update_device_status-Updated device_id status reason reply w e =
      outcome_of
        {Q = λ reply w.
          (d : Fields) × (env.read (device_key device_id) ≡ some (document d))
          × Updated (device_key device_id) status d reply w}
        (Returns-ensure _ _ _ λ valid. Returns-load env (device_key device_id) _ _ λ d found.
          Returns-lift _ _ λ d' pushed. Returns-put (device_key device_id) d' _ (
            Returns-pure _ (
              let (vs, _, same) = push_onto_lem "statusHistory" _ _ d' pushed in
              (
                d,
                found,
                record {
                  entry = _;
                  earlier = vs;
                  writes = refl;
                  valid = valid;
                  status_set =
                      get-push_onto "statusHistory" "status" _ _ d' pushed refl
                      ∙ get-set "status" "status" (str status) d;
                  history =
                      ap (get "statusHistory") same ∙ get-set "statusHistory" "statusHistory" _ _;
                  from = from_entry _ _ ∙ get-set "status" "status" (str status) d;
                  to = to_entry _ (str status) _;
                  kept = λ i h k.
                      get-push_onto "statusHistory" i _ _ d' pushed k
                      ∙ get-set "status" i (str status) d
                      ∙ rw h refl;
                },
              ))))
        e
