-- ===== src/Screen/Hs.antt =====
-- The decompression of a picture: `iliHS` of src/ili_hs.h over the heatshrink library, whose decoder is
-- a parameter.
use ln_dso_stm32_dfu_bootloa.Common.{
  ℕ, zero, suc, ◌+◌, Bool, true, false, ◌&&◌, List, Option, none, some, length, get_or, drop,
  replicate, overlay, ◌==◌, if◌then◌else◌,
}

-- `HSDR_POLL_EMPTY` and the other results of a poll.
pub data PollRes : Type 0 where
  empty more error : PollRes

abbrev pub is_empty : PollRes → Bool
is_empty empty = true
is_empty _ = false

-- `heatshrink_decoder_reset`, `_poll` with the size of the output buffer, and `_sink` with the bytes at
-- the input pointer and their number. A poll gives the bytes that it has put out, a sink how many it
-- has taken, or `none` for a negative result.
pub record Heatshrink : Type 1 where
  pub Decoder : Type 0
  pub reset : Decoder
  pub poll : Decoder → ℕ → PollRes × List ℕ × Decoder
  pub sink : Decoder → List ℕ → ℕ → Option ℕ × Decoder

module _ (h : Heatshrink) where
  open h use {Decoder, reset, poll, sink}

  -- `head` and `tail` are offsets in `decomp_buffer`; `p` is the memory from the pointer on.
  pub record IliHs : Type 0 where
    pub hsd : Decoder
    pub decomp_buffer : List ℕ
    pub tail : ℕ
    pub head : ℕ
    pub p : List ℕ

  unfoldable pub ili_hs : List ℕ → IliHs
  ili_hs bytes = record {
    hsd = reset;
    decomp_buffer = replicate 64 0;
    tail = 0;
    head = 0;
    p = bytes;
  }

  -- The rounds at `again:`; `none` where the assertion stops the code, or out of fuel.
  unfoldable pub refill : ℕ → IliHs → Option IliHs
  refill zero s = none
  refill (suc fuel) s =
      let (r, bytes, d) = poll s.hsd 64 in
      let buffer = overlay s.decomp_buffer 0 bytes in
      let sunk : Option IliHs = elim ((sink d s.p 65536).0) [
        | none ↦ none
        | some count ↦
            refill fuel
              (record s { hsd = (sink d s.p 65536).1; decomp_buffer = buffer; p = drop count s.p })
      ] in
      if is_empty r && (length bytes == 0)
      then sunk
      else some (record s { hsd = d; decomp_buffer = buffer; head = 0; tail = length bytes })

  -- `return *head++;`
  unfoldable pub take_byte : IliHs → ℕ × IliHs
  take_byte s = (get_or s.decomp_buffer s.head 0, record s { head = s.head + 1 })

  unfoldable pub next : IliHs → Option (ℕ × IliHs)
  next s =
      if s.head == s.tail
      then elim (refill (length s.p + 1) s) [ none ↦ none | some s' ↦ some (take_byte s') ]
      else some (take_byte s)
