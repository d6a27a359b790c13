-- ===== src/Crypto/Domain.antt =====
-- src/crypto: EIP712Domain, EIP3009Authorization, and EthPrivateKey::eip712VerifyRaw over the
-- platform's Keccak and public-key recovery.
use machinepal.Prelude.{
  ℕ, ◌-◌, Text, str, List, ◌∷◌, ◌++◌, Option, none, some, length, ltb, if◌then◌else◌, text_eq,
  false, ◌==◌,
}
use machinepal.Result.{Result, ok, err, invalid_argument, ◌>>=◌, ◌>>◌, catch, check_state}
use machinepal.Platform.{Platform}
use machinepal.Crypto.Encoding.{from_hex, zeros, pad32, to_hex}
use machinepal.Crypto.Values.{EthAddress, Eip3009Nonce, Eip712Signature, Hash, address_to_hex}
use machinepal.Facilitator.Errors.{
  FacilitatorError, invalid_exact_evm_payload_signature, unexpected_verify_error,
}

pub record Eip712Domain : Type 0 where
  pub name : Text
  pub version : Text
  pub chain_id : ℕ
  pub asset_address : EthAddress
  pub domain_separator : Text

-- What is signed.
pub record Authorization : Type 0 where
  pub from : EthAddress
  pub to : EthAddress
  pub value : ℕ
  pub valid_after : ℕ
  pub valid_before : ℕ
  pub nonce : Eip3009Nonce

module _ (p : Platform) where
  unfoldable pub unique_payment_key : Eip712Domain → EthAddress → Eip3009Nonce → Text
  unfolding address_to_hex to_hex
  unique_payment_key d from nonce =
      d.domain_separator
      ++ (str "_" ++ (address_to_hex p from false ++ (str "_" ++ to_hex p nonce false)))

  unfoldable pub pack_uint256 : List ℕ → ℕ → Result (List ℕ)
  unfolding zeros
  pack_uint256 out value =
      let tmp = p.export_bits value in
      if ltb 32 (length tmp)
      then err (invalid_argument (str "packUint256: value does not fit in 32 bytes"))
      else ok (out ++ (zeros (32 - length tmp) ++ tmp))

  unfoldable pub hash_transfer_with_authorization_struct : Authorization → Result Hash
  unfolding pack_uint256 from_hex pad32
  hash_transfer_with_authorization_struct a = do
    type_bytes ← from_hex p (str "7c7c6cdb67a18743f49ec6fa9b35f50d52ed05cbed4cc592e13b44501c1a2267")
    m1 ← pack_uint256 (type_bytes ++ (pad32 a.from ++ pad32 a.to)) a.value
    m2 ← pack_uint256 m1 a.valid_after
    m3 ← pack_uint256 m2 a.valid_before
    ok (p.keccak256 (m3 ++ a.nonce))

  unfoldable pub get_domain_type_hash : Result Hash
  get_domain_type_hash =
      let hash = p.keccak256 (
        str "EIP712Domain(string name,string version,uint256 chainId,address verifyingContract)") in
      do
        check_state
            (text_eq (p.hex_lower hash)
              (str "8b73c3c69bb8fe3d512ecc4cf759cc79239f7b179b0ffacaa9a75d522b39400f"))
            (str "hex == 8b73")
        ok hash

  unfoldable pub hash_domain : Eip712Domain → Result Hash
  unfolding get_domain_type_hash pad32
  hash_domain d = do
    domain_type_hash ← get_domain_type_hash
    let padded_chain_id = pad32 (p.export_bits d.chain_id)
    check_state (length padded_chain_id == 32) (str "paddedChainId.size() == 32")
    let padded_contract = pad32 d.asset_address
    check_state (length padded_contract == 32) (str "paddedContract.size() == 32")
    let encoded_data =
        domain_type_hash
        ++ (p.keccak256 d.name ++ (p.keccak256 d.version ++ (padded_chain_id ++ padded_contract)))
    check_state (length encoded_data == 160) (str "encodedData.size() == 160")
    ok (p.keccak256 encoded_data)

  unfoldable pub hash_with_domain : Eip712Domain → Hash → Result Hash
  unfolding hash_domain
  hash_with_domain d struct_hash = do
    domain_separator ← hash_domain d
    ok (p.keccak256 (0x19 ∷ 0x01 ∷ (domain_separator ++ struct_hash)))

  unfoldable pub eip712_verify_raw : Hash → Eip712Signature → EthAddress → Option FacilitatorError
  eip712_verify_raw msg32 sig65 expected_address = elim (p.recover_address msg32 sig65) [
    | ok recovered ↦
        if text_eq recovered expected_address
        then none
        else some invalid_exact_evm_payload_signature
    | err e ↦ some invalid_exact_evm_payload_signature
  ]

  unfoldable pub verify_with_domain :
      Eip712Domain → Hash → Eip712Signature → EthAddress → Result (Option FacilitatorError)
  unfolding hash_with_domain eip712_verify_raw
  verify_with_domain d struct_hash signature expected_address = do
    hash ← hash_with_domain d struct_hash
    ok (eip712_verify_raw hash signature expected_address)

  unfoldable pub verify_authorization_signature :
      Eip712Domain → Authorization → Eip712Signature → Option FacilitatorError
  unfolding hash_transfer_with_authorization_struct verify_with_domain
  verify_authorization_signature d a signature =
      catch
        (do
          struct_hash ← hash_transfer_with_authorization_struct a
          verify_with_domain d struct_hash signature a.from)
        (λ _. some unexpected_verify_error)
