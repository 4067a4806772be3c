-- ===== src/Tests/Services.antt =====
-- Tests of the event bus, of the hooks, and of addresses as text.
use husarnet.Common.{
  none, ◌≡◌, ◌++◌, replicate, refl, true, false, some, List, [], ◌∷◌, length, arith, same_bytes,
}
use husarnet.IpAddress.{bytes_lt, is_fc94, is_mapped_v4, from_binary4}
use husarnet.IpAddress.Parse.{
  parse_address, ip4addr_aton, read_parts, read_number, read_digits, is_digit, join_parts,
  network_order, ip6addr_aton, count_colons, is_xdigit, read_blocks, put_block, zero_fill, set_word,
  xdigit_value,
}
use husarnet.IpAddress.Parse.RoundTrip.{parse_address-address_text}
use husarnet.IpAddress.Text.{inet_text, address_text, group_text}
use husarnet.Util.Text.{
  decode_hex, decode_pairs, hex_digit, encode_hex, hex_letter, c_string, is_space, is_lower,
}
use husarnet.Http
use husarnet.Http.{encode_headers, assign_header}
use husarnet.WebSocket.Handshake.{client_handshake}
use husarnet.Util.Decimal.{to_string, digits_of}
use husarnet.Crypto.{pubkey_to_device_id, identity_is_valid}
use husarnet.Identity.{deserialize, serialize, read_word, skip_space, take_word, to_fstring}
use husarnet.Identity.RoundTrip.{deserialize-serialize}
use husarnet.ConfigManager.{ConfigManager, get_eb_address}
use husarnet.Tests.World.{replicate-IsBytes, sodium, me, config, my_id, other_id}
use husarnet.Tests.Streams.{World, recv_some}
use husarnet.Tests.WebSockets.{ctx, fresh}
use husarnet.WebSocket.Session.{Context, ws_connecting}
use husarnet.EventBus.{EventBus, event_bus_periodic, device_endpoint}
use husarnet.EventBus.Reconnection.{greeting, reachable, event_bus_connects}
use husarnet.HooksManager.{periodic_round, schedule_hook, due_hooks, is_due, next_timer}
use husarnet.HooksManager.Timing.{
  Event, scheduled, round_over, after, rounds_since, times, runs, times-periodic_round,
}

abbrev willing : Context World
willing = record ctx {
  io = record { recv = recv_some; send_some = λ w bytes. (some (length bytes), w) };
}

abbrev with_server : ConfigManager
with_server = record config { eb_addresses = other_id ∷ [] }

abbrev closed_bus : EventBus World
closed_bus = record {
  my_address = my_id;
  ws = fresh;
  connected = false;
  last_connection_attempt = 500;
}

server-fc94 : is_fc94 (get_eb_address with_server) ≡ true
unfolding is_fc94 get_eb_address
server-fc94 = refl

endpoint_size : length (device_endpoint my_id) ≡ 47
unfolding device_endpoint address_text group_text encode_hex hex_letter is_mapped_v4 same_bytes
endpoint_size = refl

greeting_size :
    length (
      greeting willing
        (λ w bytes. refl)
        fresh
        (record { ip = get_eb_address with_server; port = 80 })
        (device_endpoint my_id))
    ≡ 221
unfolding Http.message_bytes client_handshake encode_headers inet_text device_endpoint address_text
    group_text encode_hex hex_letter is_mapped_v4 same_bytes get_eb_address to_string digits_of
    assign_header bytes_lt
greeting_size = refl

event_bus_connects_example :
    (t : EventBus World) × ((event_bus_periodic willing with_server reachable 1500 closed_bus
        ≡ some t)
      × ((t.ws.state ≡ ws_connecting) × (t.last_connection_attempt ≡ 1500)))
event_bus_connects_example =
    event_bus_connects willing (λ w bytes. refl) with_server 1500 closed_bus refl tt server-fc94
      (omega (arith, endpoint_size)) (omega (arith, greeting_size)) (omega arith)

-- Scheduled, a round, another hook.
abbrev history : List Event
history = scheduled 2 ∷ round_over ∷ scheduled 1 ∷ round_over ∷ []

-- The first hook is due, the second not yet.
due_now : (periodic_round 4 (after 4 history)).0 ≡ 1 ∷ []
unfolding periodic_round schedule_hook due_hooks is_due next_timer
due_now = refl

times-periodic_round_example :
    times 1 (periodic_round 4 (after 4 history)).0 ≡ runs (rounds_since 1 history)
times-periodic_round_example = times-periodic_round 4 1 history (omega arith)

parse_address-address_text_example :
    parse_address (address_text (from_binary4 (10 ∷ 0 ∷ 207 ∷ 9 ∷ [])))
    ≡ from_binary4 (10 ∷ 0 ∷ 207 ∷ 9 ∷ [])
parse_address-address_text_example =
    parse_address-address_text 10 0 207 9 (omega arith) (omega arith) (omega arith) (omega arith)

-- The number 08 is read in base 8, although 8 is no digit of it.
octal : ip4addr_aton (b'0' ∷ b'8' ∷ b'.' ∷ b'1' ∷ []) ≡ some (8 ∷ 0 ∷ 0 ∷ 1 ∷ [])
unfolding ip4addr_aton read_parts read_number read_digits is_digit join_parts network_order is_space
octal = refl

-- The text "::1".
loopback : parse_address (b':' ∷ b':' ∷ b'1' ∷ []) ≡ replicate 15 0 ++ (1 ∷ [])
unfolding parse_address c_string ip4addr_aton read_parts read_number is_digit ip6addr_aton
    count_colons is_xdigit read_blocks put_block zero_fill set_word xdigit_value network_order
loopback = refl

-- The device's id is read back from its text.
my_id_read : parse_address (address_text my_id) ≡ my_id
unfolding parse_address address_text is_mapped_v4 same_bytes group_text encode_hex hex_letter
    c_string ip4addr_aton read_parts read_number read_digits is_digit ip6addr_aton count_colons
    is_xdigit read_blocks put_block zero_fill set_word xdigit_value network_order is_lower is_space
my_id_read = refl

me_hashes : pubkey_to_device_id sodium me.pubkey ≡ me.device_id
unfolding pubkey_to_device_id
me_hashes = refl

me-valid : identity_is_valid me ≡ true
unfolding identity_is_valid is_fc94
me-valid = refl

deserialize-serialize_example : deserialize (serialize sodium me) ≡ some me
deserialize-serialize_example =
    deserialize-serialize sodium me refl (replicate-IsBytes 32 6 (omega arith)) refl
      (replicate-IsBytes 64 6 (omega arith)) refl
      (omega arith, (omega arith, replicate-IsBytes 14 7 (omega arith))) me_hashes me-valid

-- A file whose second word is too short for a key stops the program at an assertion.
short_key : deserialize (b'x' ∷ b' ' ∷ b'0' ∷ b'0' ∷ []) ≡ none
unfolding deserialize read_word skip_space take_word is_space to_fstring decode_hex decode_pairs
    hex_digit
short_key = refl
