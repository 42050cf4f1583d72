-- ===== src/Lib.antt =====
-- A model of parts of aknode, a node of the iMesh: a graph of transactions in which a transaction
-- refers to others and spends their outputs, and which a consensus confirms in rounds.
--
-- Parts, and the files that model them (paths from the repository's root):
--   Base            lists, maps, results and numbers that the other modules share.
--   Imesh/Types     imesh/db_core.go: TxInfo, OutputStatus, StatNo; the HeaderTxInfo table is a
--                   function from hashes to records.
--   Imesh/Confirm   imesh/confirm.go: `confirm` (confirm, with confirm_pending, settle, blocked and
--                   mark for the parts of its body) and `revertConfirmation` (revert_confirmation,
--                   unsettle).
--   Imesh/Conflict  imesh/confirm.go: `merge` and `checkConflict` (check_conflict, gather, claim).
--   Imesh/Rounds    imesh/confirm.go: `Confirm` (confirm_from) and `RevertConfirmation`
--                   (revert_from), and sequences of both.
--   Imesh/Tables    imesh/db_core.go, imesh/inout.go, imesh/db_multisig.go: the other tables, and what
--                   reads them (GetTx, PreviousOutput, GetOutput, GetMultisig).
--   Imesh/Minable   imesh/db_core.go: putMinableTx, deleteMinableTx, IsMinableTxValid, GetMinableTx,
--                   GetRandomFeeTx and GetRandomTicketTx.
--   Imesh/Store     imesh/db_core.go: putTxSub (put_tx_sub, with store_tx, refer and finish for the
--                   parts of its body), putTx and PutRawTxDirect; updateMulsigAddress.
--   Imesh/Ledger    sequences of stored transactions and of rounds.
--   Imesh/Search    imesh/txfind.go: GetSearchingTx (get_searching_tx) and
--                   AddNoexistTxHash.
--   Imesh/Resolve   imesh/txfind.go: CheckAddTx (check_add_tx), Resolve, isResolved, dfs (with walk for
--                   its loop and conclude for its end) and resolved.
--   Imesh/Startup   imesh/txfind.go: Init (init, with restore for its loop) and getTxNo.
--   Consensus       akconsensus/consensus.go: the ledgers, Confirm (confirm_ledger, with get_all,
--                   go_backward and go_forward for its loops).
--   Consensus/Messages  handleProposal and handleValidation of the same file.
--   Consensus/Adaptor   akconsensus/adaptor.go.
--   Leaves          imesh/leaves/db.go: the leaves, in memory and in the database.
--   AddressIndex    imesh/db_utxo.go: the lists of inputs and outputs for each address;
--                   AddressIndex/History models GetHisoty2.
--   Node/Addresses  node/db.go: the known addresses of nodes.
--   Node/Peers      node/peer.go: connected peers, bans, and commands that wait for an answer.
--   Tests           concrete inputs for the theorems.
--
-- How they interact: a transaction that arrives waits (CheckAddTx) until Resolve has found all
-- that it refers to; then putTxSub stores it with its outputs unspent (Imesh/Store), enters it in
-- the index (AddressIndex), flags the outputs that it spends as referred and deletes the minable
-- transactions that want them (Imesh/Minable), and it becomes a leaf (Leaves). A round of the
-- consensus calls Confirm of akconsensus with a ledger (Consensus), which reverts the ledgers
-- that are not on its chain and confirms those that are, each by its one transaction:
-- checkConflict walks the pending transactions below it and names those that lose an output to a
-- smaller hash, then confirm walks them again, rejects the losers and those that spend a spent
-- output or one of a rejected transaction, and flags what the others spend. RevertConfirmation
-- undoes a round. The node's tables of peers and addresses decide with whom it talks.
--
-- State is passed explicitly. An operation that can fail returns a Result, and a transaction of the
-- database that fails leaves the old tables. What the database answers to a write is an argument
-- where a write is named one: for putTxSub (Writes), for Confirm of imesh/confirm.go
-- (confirm_in), for the leaves, for node/db.go, for the ledgers of the consensus, and for the table
-- of waiting and missing transactions. Everywhere else the database takes the writes: in
-- confirm_from and revert_from, which the rounds and the loops of the consensus call, in
-- PutRawTxDirect and in the tables of minable transactions. A missing key is key_not_found, an index out of range panic. The mutexes of the
-- packages make the operations atomic, so that a concurrent run is a sequence of them. Numbers
-- are natural; a byte keeps its `% 256`.
--
-- Fuel: the recursions of confirm.go go down the references of a transaction, and hashes make
-- cycles impossible. The model takes the depth as fuel (also for dfs of imesh/txfind.go), and a
-- rank that references make smaller stands for the absence of cycles; fuel above the rank of the
-- transaction is enough.
--
-- Parameters: the bytes of an input (InoutHash.Serialize, Inout2key), InputHashes, Check and
-- CheckAll of a transaction, sort.Search with its documented promise, sort.Slice, the random
-- draws, the functions of the package net, the clock, and of the package consensus the IDs of
-- ledgers, IndexOf and Diff.
--
-- Not modelled: Init and the retry loop of akconsensus, the loop of a
-- peer and its sockets (node/peer_loop.go, node/node.go, node/miner.go, node/cron.go), the wallet
-- and the remote procedure calls (walletImpl, rpc), the explorer, the settings file and the
-- command line. Errors of the database other than a missing key and a refused write are left out,
-- and the database's removal of a broken transaction after a day. In the first loop of Confirm of
-- akconsensus, the wait for a missing ledger changes nothing; a transaction that arrives in the
-- iMesh during that wait is left out.
pub mod Base
pub mod Imesh
pub mod Leaves
pub mod AddressIndex
pub mod Tests
pub mod Node
pub mod Consensus
