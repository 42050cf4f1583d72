-- ===== src/Tests/History.antt =====
-- An address with one input, whose output is not in the index.
use aknode.Base.{
  ◌+◌, ◌*◌, ◌/◌, ◌%◌, ◌==◌, if◌then◌else◌, false, some, [], ◌∷◌, In, inl, ok, ◌≡◌, refl, map,
}
use aknode.Imesh.Tables.{InoutHash, get_tx_info}
use aknode.AddressIndex.{Index, type_in, type_out, at_least, is_at}
use aknode.AddressIndex.History.{
  Decoder, spent_output, parsed, insert_output, add_outputs, get_hisoty2,
}
use aknode.AddressIndex.History.Outputs.{by_input, get_hisoty2-outputs}
use aknode.Tests.AddressIndex.{search}
use aknode.Tests.Rounds.{spender, store}

-- An even number stands for an input, an odd one for an output.
abbrev dec : Decoder
dec = record {
  new_inout_hash =
      λ h. ok (record { hash = h / 2; kind = if h % 2 == 0 then type_in else type_out; index = 0 });
  bytes = λ ih. ih.hash * 2 + ih.index;
  nil_hash = 0;
  search = search;
}

abbrev index : Index
index = λ a. some (20 ∷ [])

abbrev spender_input : InoutHash
spender_input = record { hash = 10; kind = type_in; index = 0 }

abbrev spent : InoutHash
spent = record { hash = 100; kind = type_out; index = 0 }

both_listed : get_hisoty2 dec (ok 1) false index store ≡ ok (spender_input ∷ spent ∷ [])
unfolding get_hisoty2 parsed add_outputs insert_output spent_output get_tx_info at_least is_at
    search
both_listed = refl

get_hisoty2-outputs_example :
    In 20 (map dec.bytes (spender_input ∷ spent ∷ []))
    × In 200 (map dec.bytes (spender_input ∷ spent ∷ []))
get_hisoty2-outputs_example =
    get_hisoty2-outputs dec 1 index store (spender_input ∷ spent ∷ []) 20 spender_input spent
      both_listed (inl refl) refl
      (by_input 10 0 (spender 2) (record { previous_tx = 100; index = 0 }) refl refl)
