-- ===== src/Postgres.antt =====
-- The messages of the PostgreSQL honeypot (src/honeypots/postgresql_honeypot.py): their bytes, and
-- the reader of one message. Sending does not fail here; UTF-8 is a parameter.
pub mod Words
pub mod Framing
use honey_mind.Prelude.{
  ℕ, zero, suc, ◌+◌, ◌-◌, ◌*◌, min, Text, codes, eqb, length, take, drop, Bool, true, false, ◌==◌,
  List, [], ◌∷◌, ◌++◌, if◌then◌else◌, Option, none, some,
}
use honey_mind.Postgres.Words.{pack_u16, pack_u32, unpack_u32}

-- `_send_message`: the bytes that are sent, or none where the length does not fit its four bytes
unfoldable pub with_length : ℕ → Text → Option (List ℕ) → Option (List ℕ)
with_length message_type body none = none
with_length message_type body (some packed) = some (message_type ∷ packed ++ body)

unfoldable pub send_message : ℕ → Text → Option (List ℕ)
unfolding with_length
send_message message_type body = with_length message_type body (pack_u32 (length body + 4))

-- a body that is built behind a number, or an exception of `struct`
behind : Option (List ℕ) → Option (List ℕ) → Option (List ℕ)
behind none rest = none
behind (some head) none = none
behind (some head) (some rest) = some (head ++ rest)

-- the bytes that a sender leaves: its body may raise
unfoldable pub send_body : ℕ → Option Text → Option (List ℕ)
send_body message_type none = none
send_body message_type (some body) = send_message message_type body

module _ (encode : Text → Text) where
  unfoldable pub error_body : Text → Text → Text → Text
  error_body code message severity =
      codes "S"
      ++ encode severity
      ++ 0 ∷ codes "C"
      ++ code
      ++ 0 ∷ codes "M"
      ++ encode message
      ++ 0 ∷ 0 ∷ []

  -- `_send_error`
  unfoldable pub send_error : Text → Text → Text → Option (List ℕ)
  send_error code message severity = send_message b'E' (error_body code message severity)

  unfoldable pub send_ready_for_query : Text → Option (List ℕ)
  send_ready_for_query status = send_message b'Z' status

  unfoldable pub send_parameter_status : Text → Text → Option (List ℕ)
  send_parameter_status name value = send_message b'S' (encode name ++ 0 ∷ encode value ++ 0 ∷ [])

  unfoldable pub send_backend_key_data : ℕ → ℕ → Option (List ℕ)
  unfolding behind
  send_backend_key_data server_pid server_key =
      send_body b'K' (behind (pack_u32 server_pid) (pack_u32 server_key))

  unfoldable pub send_authentication_ok : Option (List ℕ)
  send_authentication_ok = send_body b'R' (pack_u32 0)

  unfoldable pub send_authentication_cleartext_password : Option (List ℕ)
  send_authentication_cleartext_password = send_body b'R' (pack_u32 3)

  -- the size of a type: -1 in two bytes where it is not an integer's
  abbrev type_size : ℕ → List ℕ
  type_size type_oid = if type_oid == 23 then 0 ∷ 4 ∷ [] else 255 ∷ 255 ∷ []

  columns_bytes : List (Text × ℕ) → Option (List ℕ)
  unfolding behind
  columns_bytes [] = some []
  columns_bytes ((name, type_oid) ∷ columns) =
      behind (some (encode name ++ 0 ∷ 0 ∷ 0 ∷ 0 ∷ 0 ∷ 0 ∷ 0 ∷ [])) (
        behind (pack_u32 type_oid) (
          behind (some (type_size type_oid ++ 255 ∷ 255 ∷ 255 ∷ 255 ∷ 0 ∷ 0 ∷ []))
            (columns_bytes columns)))

  -- `_send_row_description`
  unfoldable pub send_row_description : List (Text × ℕ) → Option (List ℕ)
  unfolding columns_bytes behind
  send_row_description columns =
      send_body b'T' (behind (pack_u16 (length columns)) (columns_bytes columns))

  value_bytes : Option Text → Option (List ℕ)
  unfolding behind
  value_bytes none = some (255 ∷ 255 ∷ 255 ∷ 255 ∷ [])
  value_bytes (some value) = behind (pack_u32 (length (encode value))) (some (encode value))

  values_bytes : List (Option Text) → Option (List ℕ)
  unfolding value_bytes behind
  values_bytes [] = some []
  values_bytes (value ∷ values) = behind (value_bytes value) (values_bytes values)

  -- `_send_data_row`
  unfoldable pub send_data_row : List (Option Text) → Option (List ℕ)
  unfolding values_bytes behind
  send_data_row values = send_body b'D' (behind (pack_u16 (length values)) (values_bytes values))

  unfoldable pub send_command_complete : Text → Option (List ℕ)
  send_command_complete tag = send_message b'C' (encode tag ++ 0 ∷ [])

unfoldable pub send_parse_complete : Option (List ℕ)
send_parse_complete = send_message b'1' []

unfoldable pub send_bind_complete : Option (List ℕ)
send_bind_complete = send_message b'2' []

unfoldable pub send_no_data : Option (List ℕ)
send_no_data = send_message b'n' []

-- what a message is, what is left, and what is answered while it is read
pub record Received : Type 0 where
  pub message : Option (ℕ × Text)
  pub rest : List ℕ
  pub answered : List ℕ

-- how many bytes a `recv` delivers of those to come
abbrev pub Delivery : Type 0
Delivery = List ℕ → ℕ → ℕ

-- The loop over the body, on the number of bytes that are missing; a closed connection breaks it.
unfoldable pub appended : Text → Text × List ℕ → Text × List ℕ
appended chunk (more, rest) = (chunk ++ more, rest)

unfoldable pub body_behind : Text → List ℕ → Text × List ℕ → Text × List ℕ
unfolding appended
body_behind [] rest more = ([], rest)
body_behind (c ∷ chunk) rest more = appended (c ∷ chunk) more

unfoldable pub read_body : ℕ → Delivery → ℕ → List ℕ → Text × List ℕ
unfolding body_behind
read_body fuel delivers zero bytes = ([], bytes)
read_body zero delivers (suc missing) bytes = ([], bytes)
read_body (suc fuel) delivers (suc missing) bytes =
    let n = delivers bytes (min 4096 (suc missing)) in
    body_behind (take n bytes) (drop n bytes)
      (read_body fuel delivers (suc missing - length (take n bytes)) (drop n bytes))

unfoldable pub disconnected : List ℕ → Received
disconnected rest = record { message = none; rest = rest; answered = [] }

-- the seven bytes behind a zero
special : Text → List ℕ → Received
unfolding disconnected
special more rest =
    if eqb more (0 ∷ 0 ∷ 8 ∷ 4 ∷ 210 ∷ 22 ∷ 47 ∷ [])
    then record { message = some (b'S', codes "SSL_REQUEST"); rest = rest; answered = codes "N" }
    else if eqb more (0 ∷ 0 ∷ 8 ∷ 4 ∷ 210 ∷ 22 ∷ 48 ∷ [])
    then record { message = some (b'G', codes "GSSENC_REQUEST"); rest = rest; answered = codes "N" }
    else disconnected rest

unfoldable pub whole_message : ℕ → Text × List ℕ → Received
whole_message message_type (body, rest) = record {
  message = some (message_type, body);
  rest = rest;
  answered = [];
}

-- behind the length, where it has its four bytes; it counts them
unfoldable pub sized : Delivery → ℕ → Option ℕ → List ℕ → Received
unfolding disconnected whole_message
sized delivers message_type none rest = disconnected rest
sized delivers message_type (some n) rest =
    whole_message message_type (read_body (n - 4) delivers (n - 4) rest)

-- `_read_message`
unfoldable pub read_message : Delivery → List ℕ → Received
unfolding disconnected special sized
read_message delivers [] = disconnected []
read_message delivers (message_type ∷ bytes) =
    if message_type == 0
    then (let n = delivers bytes 7 in special (take n bytes) (drop n bytes))
    else (let n = delivers bytes 4 in
        sized delivers message_type (unpack_u32 (take n bytes)) (drop n bytes))
