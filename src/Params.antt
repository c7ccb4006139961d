-- ===== src/Params.antt =====
-- include/request_param_generated.h and include/response_param_generated.h: tables for the parameters
-- and the results of methods, of one field each. Values of int, float and double are their bit patterns.
pub mod Reads
pub mod Scalars
pub mod Pointers
pub mod Request
pub mod Response
pub mod Kinds
pub mod Tables
