-- ===== src/Remote/Messages/RoundTrip.antt =====
-- Messages are read back from the objects that are written.
use ausweis_app2_omapi.Prelude.{
  Bool, true, false, String, Bytes, [], ◌≡◌, refl, ap, ◌∙◌, if◌then◌else◌,
}
use ausweis_app2_omapi.Global.Minor.{Major, Minor}
use ausweis_app2_omapi.Global.Result.{parse_minor, major_string, minor_string}
use ausweis_app2_omapi.Global.Result.Laws.{parse-strings}
use ausweis_app2_omapi.Remote.Json.{json_string, json_null, put}
use ausweis_app2_omapi.Remote.Messages.{
  RemoteCardMessageType, RemoteMessage, RemoteMessageResponse, Request, major_of, is_undefined,
  ifd_establish_context, ifd_get_status, ifd_connect, ifd_disconnect, ifd_transmit,
  ifd_establish_pace_channel, ifd_modify_pin, is_establish_context, parse_message,
  create_message_body, create_response_body, parse_response, parse_get_status, parse_connect,
  parse_disconnect, parse_transmit, parse_input, get_status_to_json, connect_to_json,
  disconnect_to_json, transmit_to_json, input_to_json,
}

-- What is read of a message of a type with a handle of a context.
abbrev pub received : RemoteCardMessageType → String → RemoteMessage
received t handle = record {
  complete = if is_undefined t then false else true;
  message_type = t;
  context_handle = if is_establish_context t then "" else handle;
}

abbrev pub asked : RemoteCardMessageType → String → String → Bytes → Bool → Request
asked t handle slot input exclusive = record {
  message = received t handle;
  slot = slot;
  input = input;
  exclusive = exclusive;
}

-- The type and the handle of every message are read back; the message that establishes a context has no
-- handle, and a message of an undefined type is not complete.
pub parse_message-create_message_body :
    (t : RemoteCardMessageType) (handle : String)
    → parse_message (create_message_body t handle) ≡ received t handle
unfolding parse_message create_message_body
parse_message-create_message_body ifd_establish_context handle = refl
parse_message-create_message_body _ handle = refl

abbrev pub response : RemoteCardMessageType → String → Major → Minor → RemoteMessageResponse
response t handle major minor = record {
  message = received t handle;
  result_major = major;
  result_minor = minor;
}

read_error :
    (t : RemoteCardMessageType) (minor handle : String)
    → parse_response (
        put "ResultMinor" (json_string minor) (
          put "ResultMajor"
            (json_string (major_string Major.error))
            (create_message_body t handle)))
      ≡ response t handle Major.error (parse_minor minor)
unfolding parse_response create_message_body major_string
read_error ifd_establish_context minor handle = refl
read_error _ minor handle = refl

read_ok :
    (t : RemoteCardMessageType) (handle : String)
    → parse_response (
        put "ResultMinor" json_null
          (put "ResultMajor" (json_string (major_string Major.ok)) (create_message_body t handle)))
      ≡ response t handle Major.ok Minor.null
unfolding parse_response create_message_body major_string
read_ok ifd_establish_context handle = refl
read_ok _ handle = refl

-- The handle, the type and the minor code of every response are read back, and the major code is "ok"
-- just where the minor code is empty.
pub parse_response-create_response_body :
    (t : RemoteCardMessageType) (m : Minor) (handle : String)
    → parse_response (create_response_body t m handle) ≡ response t handle (major_of m) m
unfolding create_response_body
parse_response-create_response_body t Minor.null handle = read_ok t handle
parse_response-create_response_body t Minor.al_unknown_error handle =
    read_error t (minor_string Minor.al_unknown_error) handle
    ∙ ap (response t handle Major.error) (parse-strings Major.error Minor.al_unknown_error).1
parse_response-create_response_body t m handle =
    read_error t (minor_string m) handle
    ∙ ap (response t handle Major.error) (parse-strings Major.error m).1

module _ (from_hex : String → Bytes) (to_hex : Bytes → String) where
  -- Every request with a slot, and the bytes of those that hold a command or data, are read back from the
  -- objects that are written, if the hexadecimal digits of the bytes are.
  pub parse_requests :
      (slot : String) (input : Bytes) (exclusive : Bool) (handle : String)
      → from_hex (to_hex input) ≡ input
      → (parse_get_status (get_status_to_json slot handle)
          ≡ asked ifd_get_status handle slot [] false)
        × (parse_disconnect (disconnect_to_json slot handle)
            ≡ asked ifd_disconnect handle slot [] false)
        × (parse_connect (connect_to_json slot exclusive handle)
            ≡ asked ifd_connect handle slot [] exclusive)
        × (parse_transmit from_hex to_hex (transmit_to_json from_hex to_hex slot input handle)
            ≡ asked ifd_transmit handle slot input false)
        × (parse_input from_hex to_hex ifd_establish_pace_channel
              (input_to_json from_hex to_hex ifd_establish_pace_channel slot input handle)
            ≡ asked ifd_establish_pace_channel handle slot input false)
        × (parse_input from_hex to_hex ifd_modify_pin
              (input_to_json from_hex to_hex ifd_modify_pin slot input handle)
            ≡ asked ifd_modify_pin handle slot input false)
  unfolding parse_get_status parse_disconnect parse_connect parse_transmit parse_input
      get_status_to_json disconnect_to_json connect_to_json transmit_to_json input_to_json
  parse_requests slot input exclusive handle hex = (
    refl,
    refl,
    refl,
    ap (λ bs. asked ifd_transmit handle slot bs false) hex,
    ap (λ bs. asked ifd_establish_pace_channel handle slot bs false) hex,
    ap (λ bs. asked ifd_modify_pin handle slot bs false) hex,
  )
