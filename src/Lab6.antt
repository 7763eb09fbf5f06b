-- ===== src/Lab6.antt =====
-- lab6: a tree of compute processes that a control process creates, queries and removes.
pub mod BTree
pub mod RmList
pub mod Zmq
pub mod HashMap
pub mod Instances
pub mod MqNode
pub mod Protocol
pub mod Run
pub mod ControlNode
pub mod ComputeNode
