-- ===== src/Tests/AuthFlow.antt =====
-- An authentication, from its first states.
use ausweis_app2_omapi.Prelude.{◌≡◌, refl}
use ausweis_app2_omapi.Workflow.Graph.{Walk, here, further}
use ausweis_app2_omapi.Workflow.Auth.{initial, parse_tc_token_url, pace, fire_continue, transition}
use ausweis_app2_omapi.Workflow.Auth.Flow.{card_not_used_before_rights, not_rights}

not_rights-Walk : Walk transition not_rights initial parse_tc_token_url
unfolding transition
not_rights-Walk = further initial initial parse_tc_token_url fire_continue (here initial) refl refl

card_not_used_before_rights_example : ¬ (parse_tc_token_url ≡ pace)
card_not_used_before_rights_example = card_not_used_before_rights parse_tc_token_url not_rights-Walk
