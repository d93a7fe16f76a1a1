-- ===== src/Examples/Codecs.antt =====
-- An offer, a response and a confirmation, encoded and read.
use cypher_syntax.Py.Result.{ok}
use cypher_syntax.Py.Value.{bytes, Bytes}
use cypher_syntax.Py.Text.{ascii, utf8, strip, decimal, digits, is_space}
use cypher_syntax.Py.Utf8.{encode}
use cypher_syntax.Py.Hex.{hex}
use cypher_syntax.Names.{validate_name}
use cypher_syntax.Json.Strings.{escape, escape_char, hex_digit}
use cypher_syntax.Json.Numbers.{int_text}
use cypher_syntax.Json.Dump.{dumps}
use cypher_syntax.Handshake.Fields.{
  Terms, validate_version, validate_suite, validate_bytes, validate_participants,
  validate_offer_fields,
}
use cypher_syntax.Handshake.Messages.{
  HandshakeOffer, HandshakeResponse, HandshakeConfirmation, make_offer, make_response,
  make_confirmation,
}
use cypher_syntax.Handshake.Codec.{
  encode_message, offer_to_bytes, response_to_bytes, confirmation_to_bytes, offer_from_bytes,
  response_from_bytes, confirmation_from_bytes,
}
use cypher_syntax.Handshake.Codec.Kinds.{accepted, one_kind}
use cypher_syntax.Handshake.Codec.Offers.{offer_from_bytes_iff_to_bytes}
use cypher_syntax.Handshake.Codec.Responses.{response_from_bytes_iff_to_bytes}
use cypher_syntax.Handshake.Codec.Confirmations.{confirmation_from_bytes_iff_to_bytes}
use cypher_syntax.Examples.Toy.{is_visible, the_ok, the_ok_eq}
use cypher_syntax.Prelude.{ℕ, ◌+◌, ◌≤◌, ◌≡◌, refl, ◌↔◌, arith, replicate}

abbrev terms : Terms
terms = record {
  version = 1;
  suite = ascii "AES_GCM_SIV";
  initiator = ascii "alice";
  responder = ascii "bob";
  initiator_ephemeral_public_key = replicate 32 1;
  initiator_signing_public_key = replicate 32 2;
}

abbrev an_offer : HandshakeOffer
an_offer = record { terms = terms; signature = replicate 64 3 }

abbrev a_response : HandshakeResponse
a_response = record {
  terms = terms;
  responder_ephemeral_public_key = replicate 32 4;
  responder_signing_public_key = replicate 32 5;
  responder_key_confirmation = replicate 32 6;
  signature = replicate 64 7;
}

abbrev a_confirmation : HandshakeConfirmation
a_confirmation = record {
  version = 1;
  suite = ascii "AES_GCM_SIV";
  initiator = ascii "alice";
  responder = ascii "bob";
  initiator_ephemeral_public_key = replicate 32 1;
  responder_ephemeral_public_key = replicate 32 4;
  initiator_key_confirmation = replicate 32 8;
  signature = replicate 64 9;
}

-- all that runs when a message is encoded
encodes : ℕ
unfolding encode_message dumps escape escape_char hex_digit int_text decimal digits utf8 encode hex
encodes = 0

offer_encoding : Bytes
unfolding encodes
offer_encoding = the_ok (offer_to_bytes an_offer) tt

response_encoding : Bytes
unfolding encodes
response_encoding = the_ok (response_to_bytes a_response) tt

confirmation_encoding : Bytes
unfolding encodes
confirmation_encoding = the_ok (confirmation_to_bytes a_confirmation) tt

offer_from_bytes_iff_to_bytes_example :
    (offer_from_bytes is_visible (bytes offer_encoding) ≡ ok an_offer)
    ↔ (offer_to_bytes an_offer ≡ ok offer_encoding)
unfolding make_offer validate_offer_fields validate_version validate_suite validate_bytes
    validate_participants validate_name strip is_space encode
offer_from_bytes_iff_to_bytes_example =
    offer_from_bytes_iff_to_bytes is_visible an_offer offer_encoding refl
      (ground arith, ground arith, ground arith)

response_from_bytes_iff_to_bytes_example :
    (response_from_bytes is_visible (bytes response_encoding) ≡ ok a_response)
    ↔ (response_to_bytes a_response ≡ ok response_encoding)
unfolding make_response validate_offer_fields validate_version validate_suite validate_bytes
    validate_participants validate_name strip is_space encode
response_from_bytes_iff_to_bytes_example =
    response_from_bytes_iff_to_bytes is_visible a_response response_encoding refl
      (ground arith, ground arith, ground arith, ground arith, ground arith, ground arith)

confirmation_from_bytes_iff_to_bytes_example :
    (confirmation_from_bytes is_visible (bytes confirmation_encoding) ≡ ok a_confirmation)
    ↔ (confirmation_to_bytes a_confirmation ≡ ok confirmation_encoding)
unfolding make_confirmation validate_version validate_suite validate_bytes validate_participants
    validate_name strip is_space encode
confirmation_from_bytes_iff_to_bytes_example =
    confirmation_from_bytes_iff_to_bytes is_visible a_confirmation confirmation_encoding refl
      (ground arith, ground arith, ground arith, ground arith)

-- the offer is read back
offer_read : offer_from_bytes is_visible (bytes offer_encoding) ≡ ok an_offer
unfolding offer_encoding
offer_read = offer_from_bytes_iff_to_bytes_example.1 (the_ok_eq (offer_to_bytes an_offer) tt)

one_kind_example :
    accepted (offer_from_bytes is_visible (bytes offer_encoding))
      + accepted (response_from_bytes is_visible (bytes offer_encoding))
      + accepted (confirmation_from_bytes is_visible (bytes offer_encoding))
    ≤ 1
one_kind_example = one_kind is_visible (bytes offer_encoding)
