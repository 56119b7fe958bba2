-- ===== src/Lib.antt =====
-- LWK, the Liquid Wallet Kit: a workspace of Rust crates for wallets on the Liquid network.
--
-- The program has these parts. lwk_wollet keeps a wallet's transactions and builds new ones;
-- lwk_signer, lwk_jade and lwk_ledger sign them, in software or on a device; lwk_app is a JSON-RPC
-- server that keeps wallets, signers, memos and assets by name, and saves them in a state file;
-- lwk_common
-- is what they share; the other crates wrap these for other languages, the shell and the tests. Four parts
-- are modelled.
--
-- The Ledger client (lwk_ledger). A Ledger device has little memory: it asks the client for pieces of
-- the data that it is to sign, by client commands, and checks them against Merkle roots.
--   Ledger/Apdu         lwk_ledger/src/apdu.rs: codes, their conversions, the frame of a command
--   Ledger/Merkle       lwk_ledger/src/merkle.rs: MerkleTree and Tree. A panic is `none`; the proofs are
--                       in Power (powers of two), Build (the root), Sizes, Proof and Binding
--   Ledger/Interpreter  lwk_ledger/src/interpreter.rs: the state of ClientCommandInterpreter and one
--                       function for each command; Sorting models the sort of a mapping's entries. The
--                       proofs are in Valid (the invariant), Execute, Preimage, Stream and Lists
-- SHA-256 is an argument, with the length of its digest as a hypothesis where it matters, and so are
-- bitcoin's compact-size integers (`VarInt`, a record with its laws).
--
-- The server (lwk_app). A handler locks the state, changes it and appends its request to the state
-- file; an unloading writes the file anew from the state.
--   App/Error           lwk_app/src/error.rs; the errors of other crates are their messages
--   App/Signer          AppSigner of lwk_app/src/state.rs, over lwk_signer's AnySigner
--   App/Matching        the search for the names of equal key material (fingerprint, first address)
--   App/Checked         the insertion that Wollets and Signers share; Uniqueness and Checked/Laws prove it
--   App/Signers         Signers: insert, remove, name_from_fingerprint (Identity), get_available
--                       (Availability)
--   App/Wollets, App/Memos, App/Assets   the other maps of lwk_app/src/state.rs; Assets/Issuance is about
--                       RegistryAssetData::new
--   App/State           State, persist, persist_all and as_requests (State/Saved)
--   App/Handler         the arms of inner_method_handler of lwk_app/src/lib.rs that change the state; the
--                       proofs are in Invariant and Unload
--   App/Start           App::run of lwk_app/src/lib.rs up to the end of the replay of the state file
--   App/Method          lwk_app/src/method.rs: the methods' names and their parser
-- Devices, elements' types, a wallet seen from the server, the text of identifiers and the file system are
-- the records Devices, Elements, Wallets and Host, which the definitions take as arguments. A handler
-- gives back the state that it leaves, on an error too, and `none` stands for a panic. A hash map is
-- a list of entries whose order is left open (Common/HashMap, Common/Extend).
--
-- The wallet (lwk_wollet). A scan of the blockchain gives an update, which the wallet applies to its
-- cache and hands to a persister; opening a wallet applies the persisted updates again.
--   Wollet              the chains and paths of addresses, and what the cache holds of elements' types
--   Wollet/Update       lwk_wollet/src/update.rs and store.rs: Update, RawCache, apply_update_inner. The
--                       proofs are in Heights, Indices, Paths, Tip (with the replay) and Coalesce
--   Wollet/Codec        lwk_wollet/src/update.rs: the consensus encoding of an update; Reading is about its
--                       pieces and RoundTrip about the whole
--   Wollet/Persister    lwk_wollet/src/persister.rs, of update.rs the encryption, and of wollet.rs Wollet::new;
--                       Stored says which list of updates the directory holds, and Reload what opening the
--                       wallet makes of it
--   Wollet/Utxos        lwk_wollet/src/wollet.rs: utxos (Listed and Sound) and the balance (Sums)
--   Wollet/Transactions lwk_wollet/src/wollet.rs: the transactions as the wallet sees them; Balances and
--                       Types are about tx_balance and tx_type
--   Wollet/TxBuilder    lwk_wollet/src/tx_builder.rs and pset_create.rs: the steps of finish, and finish
--                       without an issuance request; Values, Selection and Conservation add up inputs and
--                       outputs, and Fee is about the fee
--   Wollet/Recipients   lwk_wollet/src/model.rs and tx_builder.rs: recipients and the methods that fill a
--                       builder; Valid is about what they let in
--   Wollet/Issuance     lwk_wollet/src/tx_builder.rs, pset_create.rs and wollet.rs: the issuances of
--                       transactions, issuing and reissuing, and finish as a whole, up to the blinding;
--                       Receivers and Conserves add up inputs and outputs
--   Wollet/Scan         lwk_wollet/src/clients/mod.rs, and get_script_batch of store.rs: full_scan, which asks
--                       a server for the histories of the wallet's scripts, batch by batch, and makes the
--                       update that apply_update_inner takes (Download). Ends is about its loops; Gathers,
--                       Gap, Raised and Unused about the last unused indices; Listed and Found about the
--                       transactions it lists; Sync, Missing, Confirmed and Complete about the wallet after
--                       the update
-- The types of elements are the record Elements of Wollet, how elements encodes them the record
-- Encodings, what a descriptor derives the record Descriptor, addresses and their texts the record
-- Addresses, the ids and weights of issuances the record Issuances, what a server answers the record
-- Backend, and the cipher and the file system the record Disk. The sums of u32, u64 and i64 wrap around, as in a release build.
--
-- What is shared (lwk_common). Before signing, a wallet is told what a transaction does to it and who signs.
--   Pset                lwk_common/src/lib.rs and error.rs: the inputs and outputs, and which are the wallet's
--   Pset/Balance        lwk_common/src/lib.rs: pset_balance. Steps inverts its loops, Checks is about its checks
--                       of one input or output, Secure about all of them, Account about the balances
--   Pset/Signatures     lwk_common/src/lib.rs and model.rs: pset_signatures and the fingerprints
-- Descriptors, commitments, proofs and unblinding are the record Psets. An error of miniscript while deriving
-- is `none`, since pset_balance takes it for an output that is not the wallet's.
--
-- Bounds and fuel. Bytes and lengths are natural numbers, and a conversion to a smaller integer is
-- written as its remainder or its failure. The loop of floor_lg, which doubles its counter, runs on fuel that
-- is the number itself, and the tree is built on fuel for the number of its leaves, which a turn makes
-- smaller. Collecting the answers to GET_MORE_ELEMENTS takes as much fuel as the queue has elements,
-- since an answer takes one at least. Opening a wallet takes as many turns as there are stored updates,
-- and one more to find the end. The loop over the batches of a descriptor runs on fuel for its turns: as many
-- as there are batches of normal child indices, and one, are enough for any server.
--
-- Not modelled: the transports to devices and servers, JSON, the arms of the server that only read or
-- go to the network, the addresses and the network clients of lwk_wollet, the blinding and the details of
-- a finished transaction, the PSBT code of lwk_ledger, lwk_jade's messages, the texts of descriptors and key
-- origins, the bindings and the command line.
pub mod App
pub mod Common
pub mod Ledger
pub mod Pset
pub mod Tests
pub mod Wollet
