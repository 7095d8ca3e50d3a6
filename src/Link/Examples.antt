-- ===== src/Link/Examples.antt =====
-- Concrete runs of the link of src/link.rs.
use nerves_hub_link_esp.Base.{
  ℕ, true, false, not, none, some, List, [], ◌∷◌, ◌≡◌, refl, any, to_string,
}
use nerves_hub_link_esp.Config
use nerves_hub_link_esp.Config.{shared_secret}
use nerves_hub_link_esp.Error.{ok, err, join_refused}
use nerves_hub_link_esp.Json.Samples.{Plain, plain}
use nerves_hub_link_esp.Link
use nerves_hub_link_esp.Link.{Transport, UpdateHandler, Session, heartbeat_unanswered}
use nerves_hub_link_esp.Link.Failures.{Fails, handle-Fails}
use nerves_hub_link_esp.Link.Handling.{handle}
use nerves_hub_link_esp.Metadata.{BootReport}
use nerves_hub_link_esp.Link.Heartbeats.{heartbeat_unanswered-answered, is_answer, is_heartbeat}
use nerves_hub_link_esp.Link.Joining.{use_all-IsAccepted, IsAccepted, heard}
use nerves_hub_link_esp.Link.Moves.{Move, join, heartbeat, receive, use_all}
use nerves_hub_link_esp.Link.Serializers.{Serialized, use_all-Serialized}
use nerves_hub_link_esp.Message.{next_ref}
use nerves_hub_link_esp.Frame
use nerves_hub_link_esp.Update.{UpdateDecision}

-- A transport that counts what it sends.
abbrev counting : Transport ℕ
counting = record {
  send_text = λ bytes w. (ok tt, w);
  send_binary = λ bytes w. (ok tt, w);
  recv_frame = λ w. (ok none, w);
}

abbrev applies : UpdateHandler ℕ
applies = record {
  update_available = λ u w. (UpdateDecision.apply, w);
  progress = λ stage percent w. w;
}

abbrev start : Session Plain ℕ
start = record {
  link =
      Link.new
        (Config.new "devices.nerves-hub.org"
          (shared_secret "esp-1" (record { key = 107 ∷ []; secret = 115 ∷ [] })))
        (record {
          project_name = "my_app";
          version = "1.2.3";
          app_elf_sha256 = "abab";
          idf_ver = "v5.2.1";
          chip_id = 9;
        });
  world = 0;
  sent = [];
}

abbrev unconfirmed : BootReport
unconfirmed = record { firmware_validated = false; firmware_auto_revert_detected = false }

abbrev joining : List (Move Plain)
joining = join unconfirmed ∷ receive (Frame.text (1 ∷ [])) ∷ []

joins : (use_all plain counting applies joining start).link.joined ≡ true
unfolding use_all Link.new to_string
joins = refl

use_all-IsAccepted_example :
    IsAccepted plain (use_all plain counting applies joining start).link (heard [] joining)
unfolding Link.new
use_all-IsAccepted_example = use_all-IsAccepted plain counting applies joining start refl joins

use_all-Serialized_example : Serialized start (use_all plain counting applies joining start)
use_all-Serialized_example = use_all-Serialized plain counting applies joining start

-- After the join, whose reference is 1.
abbrev joined : Session Plain ℕ
joined = use_all plain counting applies joining start

heartbeat_unanswered-answered_example :
    heartbeat_unanswered
      (use_all plain counting applies (heartbeat ∷ receive (Frame.text (2 ∷ [])) ∷ []) joined).link
    ≡ not (
        any
          (is_answer plain (some (next_ref joined.link.refs).1))
          (receive (Frame.text (2 ∷ [])) ∷ []))
unfolding is_heartbeat
heartbeat_unanswered-answered_example =
    heartbeat_unanswered-answered plain counting applies (receive (Frame.text (2 ∷ [])) ∷ []) joined
      refl

answered :
    any (is_answer plain (some (next_ref joined.link.refs).1)) (receive (Frame.text (2 ∷ [])) ∷ [])
    ≡ true
unfolding is_answer next_ref use_all Link.new to_string
answered = refl

-- The reply to the join refuses it.
abbrev refusing : Session Plain ℕ
refusing = use_all plain counting applies (join unconfirmed ∷ []) start

refuses :
    (handle plain counting applies (Frame.text (4 ∷ [])) refusing).0
    ≡ err (join_refused "unauthorized")
unfolding handle use_all Link.new to_string
refuses = refl

handle-Fails_example :
    Fails plain counting applies
      (Frame.text (4 ∷ []))
      refusing
      (join_refused "unauthorized")
      (handle plain counting applies (Frame.text (4 ∷ [])) refusing).1
handle-Fails_example =
    handle-Fails plain counting applies (Frame.text (4 ∷ [])) refusing (join_refused "unauthorized")
      refuses
