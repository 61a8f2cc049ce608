-- ===== src/Macros/Sends.antt =====
-- The closure of `log_impl!`: what it leaves in its slice.
use rapidlog.Prelude.{
  ℕ, ◌+◌, ◌≡◌, refl, ap, sym, List, ◌++◌, ok, slice_lem, drop, take, take-append-drop, length,
  length-append, length-take, length-drop, arith,
}
use rapidlog.Queue.Encoded.{Encodes}
use rapidlog.Message
use rapidlog.Message.{
  ArchivedHeader, IsHeader, header_size, header_bytes, length-header_bytes, serialize_into,
  serialize_into_lem, decode, decode-append,
}
use rapidlog.Macros.Defs.{Argument, payloads_size, write_message}
use rapidlog.Macros.Arguments

module _ (now meta_ptr logger_ptr : ℕ) (args : List Argument) (h : Arguments.AreLoggable args) where
  abbrev pub message_in : List ℕ → List ℕ
  message_in buf =
      let bytes = Arguments.arg_bytes args h in
      header_bytes (Message.new now meta_ptr logger_ptr)
      ++ (bytes ++ drop (length bytes) (drop 32 buf))

  length-message_in :
      (buf : List ℕ)
      → length buf ≡ header_size + payloads_size args
      → length (message_in buf) ≡ header_size + payloads_size args
  length-message_in buf e =
      let bytes = Arguments.arg_bytes args h in
      let junk = drop (length bytes) (drop 32 buf) in
      omega (
        arith,
        length-append bytes junk,
        length-drop (length bytes) (drop 32 buf),
        length-drop 32 buf,
        Arguments.arg_bytes-le args h,
      )

  write_message_lem :
      (buf : List ℕ)
      → length buf ≡ header_size + payloads_size args
      → write_message now meta_ptr logger_ptr args buf ≡ ok (tt, message_in buf)
  unfolding write_message
  write_message_lem buf e =
      let bytes = Arguments.arg_bytes args h in
      let rest = drop 32 buf in
      let le = Arguments.arg_bytes-le args h in
      let cut : header_bytes (Message.new now meta_ptr logger_ptr) ++ rest
          ≡ header_bytes (Message.new now meta_ptr logger_ptr)
            ++ (take (length bytes) rest ++ drop (length bytes) rest) =
        ap (λ x. header_bytes (Message.new now meta_ptr logger_ptr) ++ x)
          (sym (take-append-drop (length bytes) rest)) in
      rw
        (
          slice_lem buf 0 32 (omega arith) (omega arith),
          serialize_into_lem (Message.new now meta_ptr logger_ptr) (take 32 buf)
              (omega (arith, length-take 32 buf)),
          cut,
          Arguments.encode_args_lem args h 32 (header_bytes (Message.new now meta_ptr logger_ptr))
              (take (length bytes) rest) (drop (length bytes) rest) refl
              (omega (arith, length-take (length bytes) rest, length-drop 32 buf)),
        )
        refl

  pub write_message-Encodes :
      Encodes (header_size + payloads_size args) (write_message now meta_ptr logger_ptr args)
  write_message-Encodes = record {
    value = λ buf. tt;
    message = message_in;
    runs = write_message_lem;
    keeps = length-message_in;
  }

  pub message_lem : (buf : List ℕ) → write_message-Encodes.message buf ≡ message_in buf
  unfolding write_message-Encodes
  message_lem buf = refl
