-- ===== src/Relay/Actions/Tests.antt =====
-- A command through its gates, and the theorems on actions at concrete commands.
use yummi_lcu.Common.{◌≡◌, ◌↔◌, refl, true, false, some, codes}
use yummi_lcu.CommandAuth.Samples.{toy, payload, clean, at, start, after, all_parts}
use yummi_lcu.CommandAuth.Verify.Outcome.{IsAuthentic}
use yummi_lcu.Relay.Actions.{
  dodge, accept_match, as_str, parse, allowed_on_new_device, command_is_authorized,
}
use yummi_lcu.Relay.Actions.Names.{parse-as_str_iff}
use yummi_lcu.Relay.Actions.Gate.{
  carried_out, not_authorized, after_signature, handle_command, handle_command-carried_out,
}

dodged :
    handle_command toy (at 110000) (codes "dodge") payload true false (some 42) start
    ≡ (after, carried_out dodge clean)
unfolding all_parts handle_command after_signature command_is_authorized parse
dodged = refl

-- The same command in the session of a new device.
new_device_may_not :
    (handle_command toy (at 110000) (codes "dodge") payload true true (some 42) start).1
    ≡ not_authorized
unfolding all_parts handle_command after_signature command_is_authorized parse allowed_on_new_device
new_device_may_not = refl

handle_command-carried_out_example :
    ((true ≡ true)
      × ((false ≡ true → allowed_on_new_device dodge ≡ true) × (as_str dodge ≡ codes "dodge")))
    × IsAuthentic toy (at 110000) (codes "dodge") payload (some 42) start after clean
handle_command-carried_out_example =
    handle_command-carried_out toy (at 110000) (codes "dodge") payload true false (some 42) start
      after dodge clean dodged

parse-as_str_iff_example :
    (parse (codes "accept_match") ≡ some accept_match)
    ↔ (as_str accept_match ≡ codes "accept_match")
parse-as_str_iff_example = parse-as_str_iff (codes "accept_match") accept_match
