-- ===== src/Scheduler/Keys.antt =====
-- src/scheduler-jobid.ts and the key functions of src/scheduler.ts: names are built by template
-- literals, so they are texts here, and their laws say when two of them are the same.
use oo_workers.Prelude.{ℕ, ◌≡◌, ap, [], ◌∷◌, ◌++◌, Option, none, some, arith, from_option, drop}
use oo_workers.Text.{Text, codes}
use oo_workers.Text.Decimal.{show, show-injective, show-Lacks}
use oo_workers.Text.Split.{Lacks, split_unique}
use oo_workers.Db.{MonitorType, type_name}

pub record FanOutTarget : Type 0 where
  pub region_id : Option ℕ
  pub region_slug : Option Text

-- `region_id` is null only together with `region_slug`; a null id would print as "null".
abbrev show_region : Option ℕ → Text
show_region none = codes "null"
show_region (some id) = show id

abbrev suffix_for : Option Text → Option ℕ → Text
suffix_for none id = []
suffix_for (some slug) id = codes "-r" ++ show_region id

unfoldable pub job_id_suffix : FanOutTarget → Text
job_id_suffix t = suffix_for t.region_slug t.region_id

-- `${type}:${id}:${bucket}-${nonce}${jobIdSuffix(target)}`
unfoldable pub build_job_id : MonitorType → ℕ → ℕ → FanOutTarget → Text → Text
unfolding job_id_suffix
build_job_id type id bucket target nonce =
    type_name type
    ++ (b':' ∷ (show id ++ (b':' ∷ (show bucket ++ (b'-' ∷ (nonce ++ job_id_suffix target))))))

-- `oo:jobs:${slug}`
unfoldable pub regional_list_key : Text → Text
regional_list_key slug = codes "oo:jobs:" ++ slug

-- `oo:scheduled:${type}:${id}:${bucket}:r${regionId ?? 0}`
unfoldable pub dispatch_slot_key : MonitorType → ℕ → ℕ → Option ℕ → Text
dispatch_slot_key type id bucket region_id =
    codes "oo:scheduled:"
    ++ (type_name type
        ++ (b':'
            ∷ (show id
                ++ (b':' ∷ (show bucket ++ (b':' ∷ (b'r' ∷ show (from_option 0 region_id))))))))

type_name-Lacks : (t : MonitorType) → Lacks b':' (type_name t)
type_name-Lacks MonitorType.url = omega arith
type_name-Lacks _ = omega arith

type_name-injective : (s t : MonitorType) → type_name s ≡ type_name t → s ≡ t
type_name-injective s t e = ground arith

show-Lacks_colon : (n : ℕ) → Lacks b':' (show n)
show-Lacks_colon n = show-Lacks b':' n (omega arith)

module _ (s t : MonitorType) (i j b c : ℕ) where
  -- Two slots with the same key have the same type, monitor, bucket and region, where no region
  -- counts as region 0.
  pub dispatch_slot_key-injective :
      (r q : Option ℕ)
      → dispatch_slot_key s i b r ≡ dispatch_slot_key t j c q
      → (s ≡ t) × (i ≡ j) × (b ≡ c) × (from_option 0 r ≡ from_option 0 q)
  unfolding dispatch_slot_key
  dispatch_slot_key-injective r q e =
      let (types, rest) =
        split_unique b':' _ _ _ _ (type_name-Lacks s) (type_name-Lacks t) (ap (drop 13) e) in
      let (ids, rest') = split_unique b':' _ _ _ _ (show-Lacks_colon i) (show-Lacks_colon j) rest in
      let (buckets, rest'') =
        split_unique b':' _ _ _ _ (show-Lacks_colon b) (show-Lacks_colon c) rest' in
      (
        type_name-injective s t types,
        show-injective i j ids,
        show-injective b c buckets,
        show-injective _ _ (ap (drop 1) rest''),
      )
