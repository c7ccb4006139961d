-- ===== src/Params/Response.antt =====
-- include/response_param_generated.h, a module for each of its tables.
pub mod VoidResponse
pub mod BoolResponse
pub mod IntResponse
pub mod Int64Response
pub mod FloatResponse
pub mod DoubleResponse
pub mod StringResponse
pub mod BytesResponse
pub mod RoundTrip
