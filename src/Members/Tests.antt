-- ===== src/Members/Tests.antt =====
-- `select_member` and `unique_members` of redfish_sdk/managers/system_resources.py on three members.
use redfish_python_sdk.Prelude.{
  ◌≡◌, refl, Option, none, some, List, [], ◌∷◌, Text, str, mem, IsDistinct, text_eq, any, filter_by,
}
use redfish_python_sdk.Result.{ok}
use redfish_python_sdk.Members.{is_match, select_member, unique_members}
use redfish_python_sdk.Members.Laws.{
  uris_of, count, Selected, unique_members_lem, select_member_lem,
}

abbrev Resource : Type 0
Resource = Option Text × Option Text

abbrev id : Resource → Option Text
id r = r.0

abbrev odata_id : Resource → Option Text
odata_id r = r.1

abbrev resources : List Resource
resources =
    (some (str "1"), some (str "/m/1"))
    ∷ (none, none)
    ∷ (some (str "one"), some (str "/m/1"))
    ∷ (some (str "2"), some (str "/m/2"))
    ∷ []

computing : Unit {0}
unfolding select_member unique_members text_eq any filter_by mem is_match
computing = tt

select_member_test :
    select_member id odata_id resources (some (str "2")) [] ≡ ok (some (str "2"), some (str "/m/2"))
unfolding computing
select_member_test = refl

unique_members_test :
    unique_members id odata_id resources
    ≡ (some (str "1"), some (str "/m/1")) ∷ (none, none) ∷ (some (str "2"), some (str "/m/2")) ∷ []
unfolding computing
unique_members_test = refl

select_member_lem_example :
    Selected id odata_id
      (is_match id odata_id [] (str "2"))
      (count id odata_id (is_match id odata_id [] (str "2")) resources)
      (select_member id odata_id resources (some (str "2")) [])
select_member_lem_example = select_member_lem id odata_id resources (str "2") []

unique_members_lem_example :
    IsDistinct (uris_of id odata_id (unique_members id odata_id resources))
    × (mem (str "/m/1") (uris_of id odata_id (unique_members id odata_id resources))
        ≡ mem (str "/m/1") (uris_of id odata_id resources))
unique_members_lem_example = unique_members_lem id odata_id resources (str "/m/1") refl
