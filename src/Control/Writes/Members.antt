-- ===== src/Control/Writes/Members.antt =====
-- The members that a write is for: `Role` of control/read_types.go, the selection of
-- control/reload.go, `normalizeMemberNames` of control/write_types.go, and `memberTargets`,
-- `leaderFirstRESTMembers` and `memberMap` of control/flush.go.
use go_patroni.Base.{
  any as any_of, Bool, true, false, ◌&&◌, ◌||◌, Option, none, some, List, [], ◌∷◌, map,
  if◌then◌else◌, is_empty, not, keep, find, ◌++◌, ◌==◌,
}
use go_patroni.Texts.{Text, text, text_eq}
use go_patroni.Texts.Order.{sort_by}
use go_patroni.Texts.Space.{trim_space}
use go_patroni.Target.{Target}
use go_patroni.Dcs.Snapshots.{Member, ClusterState}
use go_patroni.Control.Platform.{Platform}
use go_patroni.Control.Transition.Selections.{leader_name}

-- `unset` is the empty string.
pub data Role : Type 0 where
  unset leader primary standby_leader replica standby any : Role
  other : Text → Role

-- `string(role)`
unfoldable pub role_text : Role → Text
unfolding text
role_text Role.unset = []
role_text Role.leader = text "leader"
role_text Role.primary = text "primary"
role_text Role.standby_leader = text "standby-leader"
role_text Role.replica = text "replica"
role_text Role.standby = text "standby"
role_text Role.any = text "any"
role_text (Role.other s) = s

unfoldable pub role_valid_or_empty : Role → Bool
role_valid_or_empty (Role.other _) = false
role_valid_or_empty _ = true

unfoldable pub normalized_write_role : Role → Role
normalized_write_role Role.unset = Role.any
normalized_write_role role = role

-- A set of trimmed, non-empty names, as a list without repetition.
unfoldable pub name_set : List Text → List Text
unfolding trim_space
name_set [] = []
name_set (value ∷ values) =
    let name = trim_space value in
    let rest = name_set values in
    if is_empty name || any_of (text_eq name) rest then rest else name ∷ rest

-- `normalizeMemberNames`
unfoldable pub normalize_member_names : List Text → List Text
unfolding name_set sort_by
normalize_member_names input = sort_by (λ name. name) (name_set input)

-- `strings.ReplaceAll(s, "-", "_")`
unfoldable pub underscored : Text → Text
underscored s = map (λ c. if c == b'-' then b'_' else c) s

unfoldable pub wire_role : Platform → Member → Text
unfolding underscored
wire_role os m = underscored (os.to_lower m.member_data.role)

unfoldable pub member_matches_role : Platform → ClusterState → Member → Role → Bool
unfolding wire_role text_eq text
member_matches_role os c m role =
    let is_leader = text_eq m.name (leader_name c.leader) in
    let wire = wire_role os m in
    elim role [
      | Role.any ↦ true
      | Role.leader ↦ is_leader
      | Role.primary ↦ is_leader && not (text_eq wire (text "standby_leader"))
      | Role.standby_leader ↦
          is_leader && (not (text_eq wire (text "primary")) && not (text_eq wire (text "master")))
      | Role.replica ↦ not is_leader
      | Role.standby ↦ not is_leader
      | Role.unset ↦ false
      | Role.other _ ↦ false
    ]

-- The tests of the loop of `selectMembers`.
unfoldable pub is_selected : Platform → ClusterState → Role → List Text → Bool → Member → Bool
unfolding member_matches_role name_set
is_selected os c role requested select_all_when_empty m =
    member_matches_role os c m role
    && (if not (is_empty (name_set requested))
        then any_of (text_eq m.name) (name_set requested)
        else select_all_when_empty)

unfoldable pub select_members : Platform → ClusterState → Role → List Text → Bool → List Member
unfolding is_selected keep sort_by
select_members os c role requested select_all_when_empty =
    sort_by (λ m. m.name) (keep (is_selected os c role requested select_all_when_empty) c.members)

-- A target with another member selector.
unfoldable pub with_member : Target → Text → Target
with_member t name = record {
  context = t.context;
  namespace = t.namespace;
  scope = t.scope;
  group = t.group;
  member = name;
}

-- `memberTargets`
unfoldable pub member_targets : Target → List Member → List Target
unfolding with_member
member_targets t members = map (λ m. with_member t m.name) members

-- `memberNamesFromTargets`
unfoldable pub member_names_from_targets : List Target → List Text
member_names_from_targets targets = map (λ t. t.member) targets

unfoldable pub has_rest_address : Member → Bool
unfolding trim_space
has_rest_address m = not (is_empty (trim_space m.member_data.api_url))

abbrev one_if_any : Option Member → List Member
one_if_any none = []
one_if_any (some m) = m ∷ []

-- `leaderFirstRESTMembers`: the first reachable member with the leader's name, then the others.
unfoldable pub leader_first_rest_members : ClusterState → List Member
unfolding has_rest_address text_eq
leader_first_rest_members c =
    let leader = leader_name c.leader in
    (if is_empty leader
      then []
      else one_if_any (find (λ m. text_eq m.name leader && has_rest_address m) c.members))
    ++ keep (λ m. not (text_eq m.name leader) && has_rest_address m) c.members

-- `memberMap(members)[name]`: the last member with the name.
unfoldable pub member_named : List Member → Text → Option Member
member_named [] name = none
member_named (m ∷ ms) name = elim (member_named ms name) [
  | some later ↦ some later
  | none ↦ elim (text_eq m.name name) [ true ↦ some m | false ↦ none ]
]
