-- ===== src/Iot/Devices.antt =====
-- What submitDeviceData of fabric/chaincode/supplychain/iotIntegration.js writes.
use sustainable_fashion_chai.Prelude.{
  ℕ, String, ◌≡◌, refl, ◌∙◌, ap, false, some, List, [], ◌∷◌, ◌==◌, inl, inr, Bool-cases,
  if◌then◌else◌,
}
use sustainable_fashion_chai.Json.{Value, bool, str, arr, nil, Fields, get, push_item, truthy}
use sustainable_fashion_chai.Json.Laws.{get-set}
use sustainable_fashion_chai.Fabric.{document, ok, Effect, put, Env}
use sustainable_fashion_chai.Fabric.Returns.{
  Reads, Returns-pure, Returns-lift, Returns-lift_end, Returns-ensure, Returns-put, Returns-if,
  Returns-load, Returns-read, outcome_of,
}
use sustainable_fashion_chai.Contract.{push_onto}
use sustainable_fashion_chai.Contract.Kinds.{push_onto_lem}
use sustainable_fashion_chai.Iot.{
  with_list, device_key, data_key, plus_one, detect_abnormal_data, warn, new_record, count_reading,
  submit_device_data,
}

-- The properties of `d` and `d'` other than `j` and `k` are the same.
abbrev pub SameBut : String → String → Fields → Fields → Type 0
SameBut j k d d' = (i : String) → (j == i) ≡ false → (k == i) ≡ false → get i d' ≡ get i d

-- The writes of a submission for the device `d` and the product `p`: the record with the flag of
-- detectAbnormalData, the device with one more reading, and the product with the list of readings
-- and the history changed at most, the history only if the flag is set.
pub record Submitted (env : Env) (record_key key product_id timestamp : String) (readings : Value)
    (d p : Fields) (reply : Fields) (w : List Effect) : Type 0 where
  pub device : Fields
  pub product : Fields
  pub writes : w ≡ put record_key reply ∷ put key device ∷ put product_id product ∷ []
  pub flag : get "abnormalFlag" reply ≡ bool (detect_abnormal_data env (get "type" d) readings)
  pub counted : get "dataCount" device ≡ plus_one env (get "dataCount" d)
  pub dated : get "lastDataTimestamp" device ≡ str timestamp
  pub device_kept : SameBut "dataCount" "lastDataTimestamp" d device
  pub product_kept : SameBut "iotData" "history" p product
  pub no_warning :
      detect_abnormal_data env (get "type" d) readings ≡ false
      → get "history" product ≡ get "history" p

pub SameBut-with_list :
    (k : String) (i : String) (d : Fields) → (k == i) ≡ false → get i (with_list k d) ≡ get i d
SameBut-with_list k i d h = elim (Bool-cases (truthy (get k d))) [
  | inl t ↦ rw t refl
  | inr f ↦ rw (f, get-set k i (arr nil) d, h) refl
]

pub get-push_onto :
    (k i : String) (v : Value) (d d' : Fields)
    → push_onto k v (with_list k d) ≡ ok d'
    → (k == i) ≡ false
    → get i d' ≡ get i d
get-push_onto k i v d d' e h =
    let (vs, _, same) = push_onto_lem k v (with_list k d) d' e in
    ap (get i) same
    ∙ rw (get-set k i (arr (push_item v vs)) (with_list k d), h) (SameBut-with_list k i d h)

module _ (env : Env) (iso : ℕ → String) (millis : String) (stringify : Value → String) where
  -- The warning changes the history at most, and only for abnormal readings.
  abbrev Warned : (kind readings : Value) → Fields → Fields → Type 0
  Warned kind readings p p' =
      ((i : String) → ("history" == i) ≡ false → get i p' ≡ get i p)
      × (detect_abnormal_data env kind readings ≡ false → p' ≡ p)

  warn-Warned :
      (kind readings : Value) (p : Fields) (w : List Effect)
      → Reads (Warned kind readings p) w (warn env iso millis stringify kind readings p)
  unfolding warn
  warn-Warned kind readings p w =
      Returns-if (detect_abnormal_data env kind readings) _ _
        (λ abnormal. Returns-lift_end _ λ p' pushed. (
          refl,
          ((λ i h. get-push_onto "history" i _ p p' pushed h), (λ normal. cc (abnormal, normal))),
        ))
        (λ normal. Returns-pure p (refl, ((λ i h. refl), (λ h. refl))))

  flag_of :
      (device_id product_id : String) (readings : Value) (timestamp : String) (signature : Value)
      (d : Fields)
      → get "abnormalFlag"
          (new_record env iso millis stringify device_id product_id readings timestamp signature d)
        ≡ bool (detect_abnormal_data env (get "type" d) readings)
  unfolding new_record get
  flag_of device_id product_id readings timestamp signature d = refl

  get-count_reading :
      (timestamp i : String) (d : Fields)
      → get i (count_reading env iso millis stringify timestamp d) ≡ (
          if "lastDataTimestamp" == i
          then str timestamp
          else if "dataCount" == i
          then plus_one env (get "dataCount" d)
          else get i d)
  unfolding count_reading
  get-count_reading timestamp i d = simp get-set refl

  -- When submitDeviceData returns, the device and the product were there, and it has written three
  -- records in order: its reply, with the flag of detectAbnormalData, then the device with one more
  -- reading and the new timestamp, then the product, of which only the readings and the history may
  -- differ, and the history only if the flag is set.
  pub submit_device_data-Submitted :
      (device_id product_id : String) (readings : Value) (timestamp : String) (signature : Value)
      (reply : Fields) (w : List Effect)
      → submit_device_data env iso millis stringify device_id product_id readings timestamp
          signature []
        ≡ ok (reply, w)
      → (d p : Fields) × (env.read (device_key device_id) ≡ some (document d))
        × (env.read product_id ≡ some (document p))
        × Submitted env
            (data_key device_id millis)
            (device_key device_id)
            product_id
            timestamp
            readings
            d
            p
            reply
            w
  unfolding submit_device_data
  submit_device_data-Submitted device_id product_id readings timestamp signature reply w e =
      outcome_of
        {Q = λ reply w.
          (d p : Fields) × (env.read (device_key device_id) ≡ some (document d))
          × (env.read product_id ≡ some (document p))
          × Submitted env (data_key device_id millis) (device_key device_id) product_id timestamp
              readings d p reply w}
        (Returns-ensure _ _ _ λ _. Returns-load env (device_key device_id) _ _ λ d found.
          Returns-load env product_id _ _ λ p there. Returns-put _ _ _ (
            Returns-put _ _ _ (
              Returns-lift _ _ λ p' pushed.
                Returns-read _ _ (warn-Warned (get "type" d) readings p' _) λ p'' (other, normal).
                  Returns-put product_id p'' _ (
                    Returns-pure _ (
                      d,
                      p,
                      found,
                      there,
                      record {
                        device = count_reading env iso millis stringify timestamp d;
                        product = p'';
                        writes = refl;
                        flag = flag_of device_id product_id readings timestamp signature d;
                        counted = get-count_reading timestamp "dataCount" d;
                        dated = get-count_reading timestamp "lastDataTimestamp" d;
                        device_kept = λ i h k. get-count_reading timestamp i d ∙ rw (k, h) refl;
                        product_kept =
                            λ i h k. other i k ∙ get-push_onto "iotData" i _ p p' pushed h;
                        no_warning = λ h.
                            ap (get "history") (normal h)
                            ∙ get-push_onto "iotData" "history" _ p p' pushed refl;
                      },
                    )))))
        e
