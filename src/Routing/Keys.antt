-- ===== src/Routing/Keys.antt =====
-- `serializeDirectionalRequestId`: the key of a pending request.
use Prim.Native.Char.{Char}
use Prim.Native.String.{◌++◌}
use gptsession_bridge.Shared.{
  ℕ, zero, suc, ◌/◌, ◌%◌, String, Bool, true, false, Option, none, some, Result, ok, err, leb, ltb,
  if◌then◌else◌,
}
use gptsession_bridge.Protocol.Text.{utf16_length}
use gptsession_bridge.Values.{Value, string, number, Number, integer, is_safe_integer}
use gptsession_bridge.Routing.Codes.{Code, invalid_params}

pub data Direction : Type 0 where
  client_to_server server_to_client : Direction

pub data RequestId : Type 0 where
  number_id : Number → RequestId
  text_id : String → RequestId

-- A value as a request id, where `isRequestId` holds.
unfoldable pub read_request_id : Value → Option RequestId
read_request_id (string s) = some (text_id s)
read_request_id (number x) = if is_safe_integer x then some (number_id x) else none
read_request_id _ = none

unfoldable pub digit : ℕ → Char
digit zero = "0"
digit (suc zero) = "1"
digit (suc (suc zero)) = "2"
digit (suc (suc (suc zero))) = "3"
digit (suc (suc (suc (suc zero)))) = "4"
digit (suc (suc (suc (suc (suc zero))))) = "5"
digit (suc (suc (suc (suc (suc (suc zero)))))) = "6"
digit (suc (suc (suc (suc (suc (suc (suc zero))))))) = "7"
digit (suc (suc (suc (suc (suc (suc (suc (suc zero)))))))) = "8"
digit _ = "9"

-- The digits of `n` in front of `acc`; more fuel than `n` is enough.
unfoldable pub digits : ℕ → ℕ → String → String
unfolding digit
digits zero n acc = acc
digits (suc fuel) n acc =
    let acc' = String.◌∷◌ (digit (n % 10)) acc in
    let rest = digits fuel (n / 10) acc' in if ltb n 10 then acc' else rest

-- String(n)
unfoldable pub show : ℕ → String
unfolding digits
show n = digits (suc n) n ""

unfoldable pub show_integer : Bool → ℕ → String
unfolding show
show_integer sign zero = show 0
show_integer true (suc n) = "-" ++ show (suc n)
show_integer false (suc n) = show (suc n)

unfoldable pub direction_text : Direction → String
direction_text client_to_server = "client-to-server"
direction_text server_to_client = "server-to-client"

-- Only a safe integer is a number here, and -0 is written as 0.
unfoldable pub serialize_id : RequestId → Result Code String
unfolding show_integer show utf16_length is_safe_integer
serialize_id (number_id (integer sign n)) =
    if is_safe_integer (integer sign n)
    then ok (":number:" ++ show_integer sign n)
    else err invalid_params
serialize_id (number_id x) = err invalid_params
serialize_id (text_id s) =
    if leb (utf16_length s) 256
    then ok (":string:" ++ (show (utf16_length s) ++ (":" ++ s)))
    else err invalid_params

-- Both templates begin with the direction.
unfoldable pub serialize : Direction → RequestId → Result Code String
unfolding direction_text serialize_id
serialize d id = elim (serialize_id id) [ ok rest ↦ ok (direction_text d ++ rest) | err e ↦ err e ]
