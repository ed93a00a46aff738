-- ===== src/Relay/Actions/Names.antt =====
-- relay/protocol.rs, `Action`: every action has one name, and `parse` reads just these.
use yummi_lcu.Common.{
  ◌≡◌, ap, subst, ◌↔◌, refl, sym, ◌∙◌, inl, inr, true, Option, some, Bytes, codes, text_eq,
  text_eq_iff, Bool-cases, if◌then◌else◌,
}
use yummi_lcu.Relay.Actions.{
  Action, as_str, parse, arm, ping, accept_match, decline_match, reconnect, dodge, queue_start,
  queue_cancel, leave_lobby, party_ready, champ_reroll, champ_select, set_summoner_spells,
  list_rune_pages, set_rune_page, get_current_rune_page, update_rune_page, quit_client, set_status,
  reset_status, claim_all_rewards, launch_client, create_ranked_lobby, create_normal_lobby,
  play_ranked_solo, play_normal_draft, invite_party_members, check_party_members, kick_party_member,
  web_input,
}

-- A case of `parse` that answers with the action's own name leaves the rest to answer.
arm-as_str :
    (value name : Bytes) (a : Action) (rest : Option Action) (b : Action)
    → as_str a ≡ name
    → (rest ≡ some b → as_str b ≡ value)
    → arm value name a rest ≡ some b
    → as_str b ≡ value
arm-as_str value name a rest b named later h = elim (Bool-cases (text_eq value name)) [
  | inl hit ↦
      let same : value ≡ name = (text_eq_iff value name).0 hit in
      let found : (if true then some a else rest) ≡ some b =
        subst (λ c. (if c then some a else rest) ≡ some b) hit h in
      let it : a ≡ b = cc in ap as_str (sym it) ∙ named ∙ sym same
  | inr miss ↦ later (subst (λ c. (if c then some a else rest) ≡ some b) miss h)
]

parse-as_str : (a : Action) → parse (as_str a) ≡ some a
unfolding parse as_str text_eq
parse-as_str ping = refl
parse-as_str accept_match = refl
parse-as_str decline_match = refl
parse-as_str reconnect = refl
parse-as_str dodge = refl
parse-as_str queue_start = refl
parse-as_str queue_cancel = refl
parse-as_str leave_lobby = refl
parse-as_str party_ready = refl
parse-as_str champ_reroll = refl
parse-as_str champ_select = refl
parse-as_str set_summoner_spells = refl
parse-as_str list_rune_pages = refl
parse-as_str set_rune_page = refl
parse-as_str get_current_rune_page = refl
parse-as_str update_rune_page = refl
parse-as_str quit_client = refl
parse-as_str set_status = refl
parse-as_str reset_status = refl
parse-as_str claim_all_rewards = refl
parse-as_str launch_client = refl
parse-as_str create_ranked_lobby = refl
parse-as_str create_normal_lobby = refl
parse-as_str play_ranked_solo = refl
parse-as_str play_normal_draft = refl
parse-as_str invite_party_members = refl
parse-as_str check_party_members = refl
parse-as_str kick_party_member = refl
parse-as_str web_input = refl

as_str-parse : (value : Bytes) (a : Action) → parse value ≡ some a → as_str a ≡ value
unfolding parse as_str
as_str-parse value a = arm-as_str value (codes "ping") ping _ a refl (
    arm-as_str value (codes "accept_match") accept_match _ a refl (
      arm-as_str value (codes "decline_match") decline_match _ a refl (
        arm-as_str value (codes "reconnect") reconnect _ a refl (
          arm-as_str value (codes "dodge") dodge _ a refl (
            arm-as_str value (codes "queue_start") queue_start _ a refl (
              arm-as_str value (codes "queue_cancel") queue_cancel _ a refl (
                arm-as_str value (codes "leave_lobby") leave_lobby _ a refl (
                  arm-as_str value (codes "party_ready") party_ready _ a refl (
                    arm-as_str value (codes "champ_reroll") champ_reroll _ a refl (
                      arm-as_str value (codes "champ_select_action") champ_select _ a refl (
                        arm-as_str value (codes "set_summoner_spells") set_summoner_spells _ a refl
                          (arm-as_str value (codes "list_rune_pages") list_rune_pages _ a refl (
                            arm-as_str value (codes "set_rune_page") set_rune_page _ a refl (
                              arm-as_str value (codes "get_current_rune_page") get_current_rune_page
                                _ a refl
                                (arm-as_str value (codes "update_rune_page") update_rune_page _ a
                                  refl
                                  (arm-as_str value (codes "quit_client") quit_client _ a refl (
                                    arm-as_str value (codes "set_status") set_status _ a refl (
                                      arm-as_str value (codes "reset_status") reset_status _ a refl
                                        (arm-as_str value (codes "claim_all_rewards")
                                          claim_all_rewards _ a refl
                                          (arm-as_str value (codes "launch_client") launch_client _
                                            a refl
                                            (arm-as_str value (codes "create_ranked_lobby")
                                              create_ranked_lobby _ a refl
                                              (arm-as_str value (codes "create_normal_lobby")
                                                create_normal_lobby _ a refl
                                                (arm-as_str value (codes "play_ranked_solo")
                                                  play_ranked_solo _ a refl
                                                  (arm-as_str value (codes "play_normal_draft")
                                                    play_normal_draft _ a refl
                                                    (arm-as_str value (codes "invite_party_members")
                                                      invite_party_members _ a refl
                                                      (arm-as_str value
                                                        (codes "check_party_members")
                                                        check_party_members _ a refl
                                                        (arm-as_str value
                                                          (codes "kick_party_member")
                                                          kick_party_member _ a refl
                                                          (arm-as_str value (codes "web_input")
                                                            web_input _ a refl
                                                            (λ h. cc)))))))))))))))))))))))))))))

-- `parse` answers with an action exactly on that action's name: names and actions correspond one to
-- one, and every other text is unknown.
pub parse-as_str_iff : (value : Bytes) (a : Action) → (parse value ≡ some a) ↔ (as_str a ≡ value)
parse-as_str_iff value a =
    (as_str-parse value a, λ h. subst (λ v. parse v ≡ some a) h (parse-as_str a))
