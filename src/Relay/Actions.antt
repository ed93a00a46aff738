-- ===== src/Relay/Actions.antt =====
-- relay/protocol.rs, `Action`: the commands of the relay, by name, and who may give them;
-- relay/supervisor.rs, the gates that a command passes before it is carried out.
pub mod Names
pub mod Gate
mod Tests
use yummi_lcu.Common.{
  Bool, true, false, not, ◌&&◌, ◌||◌, Option, none, some, Bytes, codes, if◌then◌else◌, text_eq,
  is_some_and,
}

pub data Action : Type 0 where
  ping accept_match decline_match reconnect dodge queue_start queue_cancel leave_lobby party_ready
        champ_reroll champ_select set_summoner_spells list_rune_pages set_rune_page
        get_current_rune_page update_rune_page quit_client set_status reset_status claim_all_rewards
        launch_client create_ranked_lobby create_normal_lobby play_ranked_solo play_normal_draft
        invite_party_members check_party_members kick_party_member web_input :
      Action

unfoldable pub as_str : Action → Bytes
as_str ping = codes "ping"
as_str accept_match = codes "accept_match"
as_str decline_match = codes "decline_match"
as_str reconnect = codes "reconnect"
as_str dodge = codes "dodge"
as_str queue_start = codes "queue_start"
as_str queue_cancel = codes "queue_cancel"
as_str leave_lobby = codes "leave_lobby"
as_str party_ready = codes "party_ready"
as_str champ_reroll = codes "champ_reroll"
as_str champ_select = codes "champ_select_action"
as_str set_summoner_spells = codes "set_summoner_spells"
as_str list_rune_pages = codes "list_rune_pages"
as_str set_rune_page = codes "set_rune_page"
as_str get_current_rune_page = codes "get_current_rune_page"
as_str update_rune_page = codes "update_rune_page"
as_str quit_client = codes "quit_client"
as_str set_status = codes "set_status"
as_str reset_status = codes "reset_status"
as_str claim_all_rewards = codes "claim_all_rewards"
as_str launch_client = codes "launch_client"
as_str create_ranked_lobby = codes "create_ranked_lobby"
as_str create_normal_lobby = codes "create_normal_lobby"
as_str play_ranked_solo = codes "play_ranked_solo"
as_str play_normal_draft = codes "play_normal_draft"
as_str invite_party_members = codes "invite_party_members"
as_str check_party_members = codes "check_party_members"
as_str kick_party_member = codes "kick_party_member"
as_str web_input = codes "web_input"

-- A case of `Action::parse`.
abbrev pub arm : Bytes → Bytes → Action → Option Action → Option Action
arm value name action rest = if text_eq value name then some action else rest

unfoldable pub parse : Bytes → Option Action
parse value = arm value (codes "ping") ping (
    arm value (codes "accept_match") accept_match (
      arm value (codes "decline_match") decline_match (
        arm value (codes "reconnect") reconnect (
          arm value (codes "dodge") dodge (
            arm value (codes "queue_start") queue_start (
              arm value (codes "queue_cancel") queue_cancel (
                arm value (codes "leave_lobby") leave_lobby (
                  arm value (codes "party_ready") party_ready (
                    arm value (codes "champ_reroll") champ_reroll (
                      arm value (codes "champ_select_action") champ_select (
                        arm value (codes "set_summoner_spells") set_summoner_spells (
                          arm value (codes "list_rune_pages") list_rune_pages (
                            arm value (codes "set_rune_page") set_rune_page (
                              arm value (codes "get_current_rune_page") get_current_rune_page (
                                arm value (codes "update_rune_page") update_rune_page (
                                  arm value (codes "quit_client") quit_client (
                                    arm value (codes "set_status") set_status (
                                      arm value (codes "reset_status") reset_status (
                                        arm value (codes "claim_all_rewards") claim_all_rewards (
                                          arm value (codes "launch_client") launch_client (
                                            arm value (codes "create_ranked_lobby")
                                              create_ranked_lobby
                                              (arm value (codes "create_normal_lobby")
                                                create_normal_lobby
                                                (arm value (codes "play_ranked_solo")
                                                  play_ranked_solo
                                                  (arm value (codes "play_normal_draft")
                                                    play_normal_draft
                                                    (arm value (codes "invite_party_members")
                                                      invite_party_members
                                                      (arm value (codes "check_party_members")
                                                        check_party_members
                                                        (arm value (codes "kick_party_member")
                                                          kick_party_member
                                                          (arm value (codes "web_input") web_input
                                                            (none)))))))))))))))))))))))))))))

unfoldable pub is_background : Action → Bool
is_background check_party_members = true
is_background _ = false

unfoldable pub allowed_on_new_device : Action → Bool
allowed_on_new_device ping = true
allowed_on_new_device accept_match = true
allowed_on_new_device leave_lobby = true
allowed_on_new_device create_ranked_lobby = true
allowed_on_new_device create_normal_lobby = true
allowed_on_new_device invite_party_members = true
allowed_on_new_device check_party_members = true
allowed_on_new_device kick_party_member = true
allowed_on_new_device _ = false

-- `command_is_authorized` of relay/supervisor.rs.
unfoldable pub command_is_authorized : Bool → Bool → Option Action → Bool
command_is_authorized session_bound session_new_device action =
    session_bound && (not session_new_device || is_some_and action allowed_on_new_device)
